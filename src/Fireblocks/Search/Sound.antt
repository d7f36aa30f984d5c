-- ===== src/Fireblocks/Search/Sound.antt =====
-- What the search for a Fireblocks asset finds.
use mathlib.Core.Option
use custody_service.Common.{
  String, ◌≡◌, refl, true, false, Bool, ◌||◌, ◌⊎◌, sym, codes, codes_eq, contains, upper, All-map,
  Bool-cases, inl, inr, Option, none, some, List, [], ◌∷◌, ◌++◌, All, find, is_filled, arith,
}
use custody_service.Fireblocks.Assets.{FbAsset, parse_fireblocks_asset}
use custody_service.Fireblocks.Natives.{is_address}
use custody_service.Fireblocks.Search.{
  FoundAsset, described_by, is_token, is_asset_testnet, same_flag, find_token,
  find_asset_by_contract_or_currency,
}

module _ {A : Type 0} (p : A → Bool) where
  -- The first that passes, and that there was none before it.
  pub record IsFirstOf (x : A) (xs : List A) : Type 0 where
    pub before : List A
    pub after : List A
    pub split : xs ≡ before ++ x ∷ after
    pub passes : p x ≡ true
    pub none_before : All (λ y. p y ≡ false) before

  pub find-IsFirstOf : (xs : List A) (x : A) → find p xs ≡ some x → IsFirstOf x xs
  find-IsFirstOf [] x e = cc
  find-IsFirstOf (y ∷ ys) x e = elim (Bool-cases (p y)) [
    | inl t ↦
        let same : y ≡ x = ground (arith, t, e) in
        record {
          before = [];
          after = ys;
          split = rw same refl;
          passes = rw (← same) t;
          none_before = tt;
        }
    | inr t ↦
        let r = find-IsFirstOf ys x (ground (arith, t, e)) in
        record {
          before = y ∷ r.before;
          after = r.after;
          split = rw (← r.split) refl;
          passes = r.passes;
          none_before = (t, r.none_before);
        }
  ]

  pub find-none : (xs : List A) → find p xs ≡ none → All (λ x. p x ≡ false) xs
  find-none [] e = tt
  find-none (x ∷ xs) e = elim (Bool-cases (p x)) [
    | inl t ↦ absurd (ground (arith, t, e))
    | inr t ↦ (t, find-none xs (ground (arith, t, e)))
  ]

-- An address that is there is the contract, but for the case of letters.
abbrev pub IsAt : String → Option String → Type 0
IsAt contract none = ⊥
IsAt contract (some x) = (is_filled (some x) ≡ true) × (codes_eq (upper x) (upper contract) ≡ true)

abbrev pub says_test : Option String → Bool
says_test none = false
says_test (some s) = contains (upper s) (codes "TEST")

-- An asset of the contract, by its contract or its issuer address, on a test net or not: a test net
-- is named in the id, the type or the native asset.
pub record IsTokenOf (contract : String) (t : Bool) (a : FbAsset) : Type 0 where
  pub located : IsAt contract a.contract_address ⊎ IsAt contract a.issuer_address
  pub net : (says_test (some a.id) || (says_test a.type || says_test a.native_asset)) ≡ t

-- The first asset of the contract and the net.
pub record IsFirstToken (contract : String) (t : Bool) (assets : List FbAsset) (a : FbAsset)
    : Type 0 where
  pub before : List FbAsset
  pub after : List FbAsset
  pub split : assets ≡ before ++ a ∷ after
  pub token : IsTokenOf contract t a
  pub none_before : All (λ b. IsTokenOf contract t b → ⊥) before

-- What an answer to a search for a token means.
abbrev pub FindsToken : List FbAsset → String → Bool → Option FoundAsset → Type 0
FindsToken assets contract t none = All (λ a. IsTokenOf contract t a → ⊥) assets
FindsToken assets contract t (some f) = IsFirstToken contract t assets f.asset

address-IsAt :
    (o : Option String) (contract : String) → is_address o contract ≡ true → IsAt contract o
address-IsAt none contract h = cc
address-IsAt (some x) contract h = ground (arith, h)

IsAt-address :
    (o : Option String) (contract : String) → IsAt contract o → is_address o contract ≡ true
IsAt-address none contract h = absurd h
IsAt-address (some x) contract h = rw (h.0, h.1) refl

flag-net : (b t : Bool) → same_flag b t ≡ true → b ≡ t
flag-net true t h = sym h
flag-net false true h = cc
flag-net false false h = refl

net-flag : (b t : Bool) → b ≡ t → same_flag b t ≡ true
net-flag true t h = sym h
net-flag false true h = cc
net-flag false false h = refl

module _ (contract : String) (t : Bool) (a : FbAsset) where
  token-IsTokenOf : is_token contract t a ≡ true → IsTokenOf contract t a
  unfolding is_asset_testnet
  token-IsTokenOf h = elim (Bool-cases (is_address a.contract_address contract)) [
    | inl e ↦ record {
      located = inl (address-IsAt a.contract_address contract e);
      net = flag-net _ t (ground (arith, h, e));
    }
    | inr e ↦ record {
      located = inr (address-IsAt a.issuer_address contract (ground (arith, h, e)));
      net = flag-net _ t (ground (arith, h, e));
    }
  ]

  IsTokenOf-token : IsTokenOf contract t a → is_token contract t a ≡ true
  unfolding is_asset_testnet
  IsTokenOf-token k =
      let flag = net-flag _ t k.net in
      elim k.located [
        | inl x ↦ ground (arith, IsAt-address a.contract_address contract x, flag)
        | inr x ↦ ground (arith, IsAt-address a.issuer_address contract x, flag)
      ]

  not_token : is_token contract t a ≡ false → IsTokenOf contract t a → ⊥
  not_token h k = ground (arith, h, IsTokenOf-token k)

-- For a contract that is given: an asset that is found is the first of the supported ones whose
-- contract or issuer address is the given one, the case of letters aside, and which is of the given
-- kind of net, a test net being named in its id, type or native asset; where nothing is found,
-- there is no such asset.
pub find_asset-FindsToken :
    (assets : List FbAsset) (currency contract : String) (t : Bool)
    → is_filled (some contract) ≡ true
    → FindsToken assets contract t
        (find_asset_by_contract_or_currency assets currency (some contract) t)
unfolding find_asset_by_contract_or_currency find_token
find_asset-FindsToken assets currency contract t filled =
    rw filled (go (find (is_token contract t) assets) refl)
  where
    go :
        (o : Option FbAsset)
        → find (is_token contract t) assets ≡ o
        → FindsToken assets contract t
            (Option.map (λ a. described_by t a (parse_fireblocks_asset a.id a)) o)
    go none e =
        All-map (λ a. is_token contract t a ≡ false) (λ a. IsTokenOf contract t a → ⊥)
          (not_token contract t) assets (find-none (is_token contract t) assets e)
    go (some a) e =
        let first = find-IsFirstOf (is_token contract t) assets a e in
        record {
          before = first.before;
          after = first.after;
          split = first.split;
          token = token-IsTokenOf contract t a first.passes;
          none_before =
              All-map (λ b. is_token contract t b ≡ false) (λ b. IsTokenOf contract t b → ⊥)
                (not_token contract t) first.before first.none_before;
        }

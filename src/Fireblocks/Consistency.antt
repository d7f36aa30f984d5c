-- ===== src/Fireblocks/Consistency.antt =====
-- The two descriptions of the native coins agree, and what decides that an id is a testnet's.
use custody_service.Common.{
  ℕ, String, ◌≡◌, ◌≢◌, refl, ◌∙◌, text_eq_iff, Bool, true, false, ◌||◌, arith, Option, none, some,
  List, [], ◌∷◌, codes, contains, starts_with, upper, codes_eq, All, subst, Bool-cases, inl, inr,
}
use custody_service.Fireblocks.Assets.{
  FbAsset, Metadata, parse_fireblocks_asset, Guess, guess_of, testnet_of, is_testnet_of, described,
  filled_type,
}
use custody_service.Fireblocks.Natives.{Native, native_of, mapping_native_tokens}

-- An entry without a type of its own, which would override the network.
abbrev untyped : String → FbAsset
untyped i = record {
  id = i;
  contract_address = none;
  issuer_address = none;
  type = none;
  native_asset = none;
  symbol = none;
  decimals = none;
}

-- The id of the row is parsed to its blockchain, its currency and its environment.
pub record IsConsistent (n : Native) : Type 0 where
  pub parsed : Metadata
  pub found : parse_fireblocks_asset n.asset_id (untyped n.asset_id) ≡ some parsed
  pub blockchain : parsed.blockchain ≡ n.blockchain
  pub currency : parsed.currency ≡ n.currency
  pub is_testnet : parsed.is_testnet ≡ n.is_testnet

abbrev meta : Native → String → Metadata
meta n network = record {
  blockchain = n.blockchain;
  currency = n.currency;
  network = network;
  decimals = 18;
  is_testnet = n.is_testnet;
}

reads :
    {n : Native} (network : String)
    → parse_fireblocks_asset n.asset_id (untyped n.asset_id) ≡ some (meta n network)
    → IsConsistent n
reads {n} network e = record {
  parsed = meta n network;
  found = e;
  blockchain = refl;
  currency = refl;
  is_testnet = refl;
}

mapping_native_tokens-IsConsistent :
    (is_testnet : Bool) → All IsConsistent (mapping_native_tokens is_testnet)
unfolding mapping_native_tokens parse_fireblocks_asset
mapping_native_tokens-IsConsistent false = (
  reads "NATIVE" refl,
  (
    reads "NATIVE" refl,
    (
      reads "NATIVE" refl,
      (
        reads "NATIVE" refl,
        (reads "NATIVE" refl, (reads "NATIVE" refl, (reads "NATIVE" refl, tt))),
      ),
    ),
  ),
)
mapping_native_tokens-IsConsistent true = (
  reads "SEPOLIA" refl,
  (
    reads "TESTNET" refl,
    (
      reads "TESTNET" refl,
      (
        reads "TESTNET" refl,
        (reads "TESTNET" refl, (reads "TESTNET" refl, (reads "TESTNET" refl, tt))),
      ),
    ),
  ),
)

native_of-All :
    (P : Native → Type 0) (u : List ℕ) (ns : List Native) (n : Native)
    → All P ns
    → native_of u ns ≡ some n
    → P n
unfolding native_of
native_of-All P u [] n a h = cc
native_of-All P u (m ∷ ns) n a h = elim (Bool-cases (codes_eq (codes m.symbol) u)) [
  | inl e ↦ let same : m ≡ n = ground arith in subst P same a.0
  | inr e ↦ native_of-All P u ns n a.1 (ground arith)
]

-- For both environments and every currency: if the table of native coins has a row for it, then
-- parsing the row's Fireblocks id, for an entry with no type, succeeds and gives the row's
-- blockchain, currency and environment.
pub native_of-IsConsistent :
    (is_testnet : Bool) (currency : String) (n : Native)
    → native_of (upper currency) (mapping_native_tokens is_testnet) ≡ some n
    → IsConsistent n
native_of-IsConsistent is_testnet currency n h =
    native_of-All IsConsistent (upper currency) (mapping_native_tokens is_testnet) n
      (mapping_native_tokens-IsConsistent is_testnet) h

-- What contains a longer pattern contains its beginning.
starts_with-prefix :
    (u s t : List ℕ) → starts_with s t ≡ true → starts_with u s ≡ true → starts_with u t ≡ true
starts_with-prefix u s [] p h = refl
starts_with-prefix u [] (b ∷ t) p h = cc
starts_with-prefix [] (a ∷ s) (b ∷ t) p h = cc
starts_with-prefix (c ∷ u) (a ∷ s) (b ∷ t) p h = ground (arith, starts_with-prefix u s t)

contains-prefix :
    (u s t : List ℕ) → starts_with s t ≡ true → contains u s ≡ true → contains u t ≡ true
contains-prefix [] s t p h = starts_with-prefix [] s t p h
contains-prefix (c ∷ u) s t p h =
    ground (arith, starts_with-prefix (c ∷ u) s t p, contains-prefix u s t p)

abbrev has : List ℕ → String → Bool
has u s = contains u (codes s)

-- The marks of a testnet; every pattern of the table but the last three begins with `TEST`.
pub is_marked : List ℕ → Bool
is_marked u = has u "TEST" || (has u "AMOY" || (has u "MUMBAI" || has u "DEVNET"))

testnet_of-is_marked : (u : List ℕ) → is_testnet_of (testnet_of u) ≡ is_marked u
unfolding is_marked testnet_of
testnet_of-is_marked u = ground (
  arith,
  contains-prefix u (codes "TEST6") (codes "TEST") refl,
  contains-prefix u (codes "TEST5") (codes "TEST") refl,
  contains-prefix u (codes "TEST4") (codes "TEST") refl,
)

described-fields :
    (t : Bool) (a : FbAsset) (g : Guess) (b c : Option String) (m : Metadata)
    → described t a g b c ≡ some m
    → (m.is_testnet ≡ t) × (m.network ≡ filled_type a.type g.network)
described-fields t a g none c m h = cc
described-fields t a g (some b) none m h = cc
described-fields t a g (some b) (some c) m h = ground arith

filled_type-eq : (o : Option String) (n t : String) → o ≡ some t → t ≢ "" → filled_type o n ≡ t
filled_type-eq o n t e filled = ground (arith, text_eq_iff t "")

-- Whatever the id and the entry: if the parse succeeds, the asset counts as a testnet's exactly if
-- the id in upper case contains TEST, AMOY, MUMBAI or DEVNET, and its network is the entry's type
-- wherever that is not empty.
pub parse_fireblocks_asset-testnet :
    (asset_id : String) (a : FbAsset) (m : Metadata)
    → parse_fireblocks_asset asset_id a ≡ some m
    → (m.is_testnet ≡ is_marked (upper asset_id))
      × ((t : String) → a.type ≡ some t → t ≢ "" → m.network ≡ t)
unfolding parse_fireblocks_asset
parse_fireblocks_asset-testnet asset_id a m h =
    let (t, n) = described-fields _ a (guess_of asset_id) _ _ m h in
    (
      t ∙ testnet_of-is_marked (upper asset_id),
      λ k e filled. n ∙ filled_type-eq a.type _ k e filled,
    )

-- ===== src/Treasury/Balances/Agreement.antt =====
-- The two reports on the treasury's balances agree.
use custody_service.Common.{
  ◌≡◌, refl, sym, ◌∙◌, Bool, true, Bool-cases, Option-cases, is_some, inl, inr, List, [], ◌∷◌, ℤ,
  pos, ◌+ℤ◌, int_laws, All, map, select, text_eq, ◌&&◌, arith,
}
use custody_service.Models.{Db, Vault, Asset, Wallet, VaultType, get_asset}
use custody_service.Session.{World, ok}
use custody_service.Activation.{holds_treasury}
use custody_service.Treasury.{wallets_of, total_of}
use custody_service.Treasury.Balances.{
  reported, AssetBalance, add_balance, add_to_asset, add_wallets, asset_balances,
  AssetBalanceResponse, asset_response, get_balances_by_asset, TypeBalances, add_to_type,
  type_balances, total_balance, overview_balances, no_types, asset_key, no_balance,
}

All-select :
    {A : Type 0} (P : A → Type 0) (p : A → Bool) (xs : List A) → All P xs → All P (select p xs)
All-select P p [] h = tt
All-select P p (x ∷ xs) h = elim (Bool-cases (p x)) [
  | inl e ↦ rw e (h.0, All-select P p xs h.1)
  | inr e ↦ rw e (All-select P p xs h.1)
]

-- The sum of the column `total_balance` of the report by asset.
unfoldable pub sum_of_totals : List AssetBalanceResponse → ℤ
sum_of_totals [] = pos 0
sum_of_totals (r ∷ rs) = r.total_balance +ℤ sum_of_totals rs

abbrev reported_sum : List AssetBalance → ℤ
reported_sum bs = sum_of_totals (map asset_response bs)

add_balance-sum :
    (t : VaultType) (n : ℤ) (b : AssetBalance)
    → holds_treasury t ≡ true
    → (asset_response (add_balance t n b)).total_balance ≡ (asset_response b).total_balance +ℤ n
add_balance-sum VaultType.hot n b h = omega int_laws
add_balance-sum VaultType.warm n b h = omega int_laws
add_balance-sum VaultType.cold n b h = omega int_laws
add_balance-sum VaultType.regular n b h = cc
add_balance-sum VaultType.operational n b h = cc

shift : (a b c d : ℤ) → a ≡ b +ℤ c → a +ℤ d ≡ b +ℤ d +ℤ c
shift a b c d e = rw e (omega int_laws)

deeper : (a b c d : ℤ) → a ≡ b +ℤ c → d +ℤ a ≡ d +ℤ b +ℤ c
deeper a b c d e = rw e (omega int_laws)

add_to_asset-sum :
    (t : VaultType) (a : Asset) (n : ℤ) (bs : List AssetBalance)
    → holds_treasury t ≡ true
    → reported_sum (add_to_asset t a n bs) ≡ reported_sum bs +ℤ n
unfolding add_to_asset sum_of_totals ◌+ℤ◌
add_to_asset-sum t a n [] h = shift _ (pos 0) n (pos 0) (add_balance-sum t n (no_balance a) h)
add_to_asset-sum t a n (b ∷ bs) h = elim (Bool-cases (text_eq b.key (asset_key a))) [
  | inl e ↦ rw e (shift _ _ n (reported_sum bs) (add_balance-sum t n b h))
  | inr e ↦ rw e (deeper _ _ n _ (add_to_asset-sum t a n bs h))
]

-- The wallet's asset has a row.
abbrev pub HasAsset : Db → Wallet → Type 0
HasAsset db w = is_some (get_asset db w.asset_id) ≡ true

rejoin : (a b c d : ℤ) → a ≡ b +ℤ c → a +ℤ d ≡ b +ℤ (c +ℤ d)
rejoin a b c d e = rw e (omega int_laws)

no_sum : (a : ℤ) → a ≡ a +ℤ pos 0
no_sum a = omega int_laws

module _ (db : Db) where
  add_wallets-sum :
      (t : VaultType) (ws : List Wallet) (bs : List AssetBalance)
      → holds_treasury t ≡ true
      → All (HasAsset db) ws
      → reported_sum (add_wallets db t ws bs) ≡ reported_sum bs +ℤ total_of ws
  unfolding add_wallets total_of
  add_wallets-sum t [] bs h k = no_sum _
  add_wallets-sum t (w ∷ ws) bs h k = elim (Option-cases (get_asset db w.asset_id)) [
    | inl e ↦ absurd (ground (arith, e, k.0))
    | inr (a, e) ↦ rw e (
        add_wallets-sum t ws (add_to_asset t a w.balance bs) h k.1
        ∙ rejoin _ _ w.balance (total_of ws) (add_to_asset-sum t a w.balance bs h))
  ]

  -- The balances of all wallets of some vaults.
  abbrev vaults_sum : List Vault → ℤ
  vaults_sum [] = pos 0
  vaults_sum (v ∷ vs) = total_of (wallets_of db v.id) +ℤ vaults_sum vs

  asset_balances-sum :
      (vs : List Vault) (bs : List AssetBalance)
      → All (λ v. holds_treasury v.vault_type ≡ true) vs
      → All (HasAsset db) db.wallets
      → reported_sum (asset_balances db vs bs) ≡ reported_sum bs +ℤ vaults_sum vs
  unfolding asset_balances
  asset_balances-sum [] bs h k = no_sum _
  asset_balances-sum (v ∷ vs) bs h k =
      asset_balances-sum vs (add_wallets db v.vault_type (wallets_of db v.id) bs) h.1 k
      ∙ rejoin _ _ (total_of (wallets_of db v.id)) (vaults_sum vs)
          (add_wallets-sum v.vault_type (wallets_of db v.id) bs h.0 (All-select _ _ db.wallets k))

  add_to_type-sum :
      (t : VaultType) (v : Vault) (n : ℤ) (b : TypeBalances)
      → holds_treasury t ≡ true
      → total_balance (add_to_type t v n b) ≡ total_balance b +ℤ n
  add_to_type-sum VaultType.hot v n b h = omega int_laws
  add_to_type-sum VaultType.warm v n b h = omega int_laws
  add_to_type-sum VaultType.cold v n b h = omega int_laws
  add_to_type-sum VaultType.regular v n b h = cc
  add_to_type-sum VaultType.operational v n b h = cc

  type_balances-sum :
      (vs : List Vault) (b : TypeBalances)
      → All (λ v. holds_treasury v.vault_type ≡ true) vs
      → total_balance (type_balances db vs b) ≡ total_balance b +ℤ vaults_sum vs
  unfolding type_balances
  type_balances-sum [] b h = no_sum _
  type_balances-sum (v ∷ vs) b h =
      type_balances-sum vs _ h.1
      ∙ rejoin _ _ (total_of (wallets_of db v.id)) (vaults_sum vs)
          (add_to_type-sum v.vault_type v (total_of (wallets_of db v.id)) b h.0)

  reported-treasury :
      (vs : List Vault)
      → All
          (λ v. holds_treasury v.vault_type ≡ true)
          (select (λ (v : Vault). v.is_active && holds_treasury v.vault_type) vs)
  reported-treasury [] = tt
  reported-treasury (v ∷ vs) = elim (Bool-cases v.is_active) [
    | inr e ↦ rw e (reported-treasury vs)
    | inl e ↦ elim (Bool-cases (holds_treasury v.vault_type)) [
      | inr f ↦ rw (e, f) (reported-treasury vs)
      | inl f ↦ rw (e, f) (f, reported-treasury vs)
    ]
  ]

-- If the asset of every wallet has a row: the totals of the report by asset add up to the total
-- balance of the overview, whatever balances, assets and vaults there are and however the wallets
-- are grouped.
pub reports_agree :
    (w : World)
    → All (HasAsset w.db) w.db.wallets
    → (rs : List AssetBalanceResponse) × (get_balances_by_asset w ≡ (ok rs, w))
      × (sum_of_totals rs ≡ total_balance (overview_balances w.db))
unfolding get_balances_by_asset overview_balances ◌+ℤ◌ sum_of_totals
reports_agree w k =
    let treasury = reported-treasury w.db w.db.vaults in
    (
      map asset_response (asset_balances w.db (reported w.db) []),
      refl,
      asset_balances-sum w.db (reported w.db) [] treasury k
          ∙ sym (type_balances-sum w.db (reported w.db) no_types treasury),
    )

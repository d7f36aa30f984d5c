-- ===== src/Ledger/HotWallet.antt =====
-- app/dao/transfer.py, `select_and_reserve_hot_wallet`: one `UPDATE` that picks a HOT wallet by a
-- subquery and reserves the amount on it, and the query that tells the two failures apart.
pub mod Choice
pub mod Reservation
use custody_service.Common.{
  ℕ, String, Bool, true, false, List, [], ◌∷◌, Option, none, some, ◌&&◌, ◌==◌, ltb_ℤ, ℤ, select,
  update_where, if◌then◌else◌, upper, codes_eq, same_text?,
}
use custody_service.Models.{
  Db, Wallet, Vault, Asset, VaultType, get_vault, get_asset, has_sufficient_balance,
  available_balance,
}
use custody_service.Ledger.{reserve}

-- A row of `wallets w JOIN vaults v … JOIN assets a …`.
pub record Row : Type 0 where
  pub wallet : Wallet
  pub vault : Vault
  pub asset : Asset

pub is_hot : VaultType → Bool
is_hot VaultType.hot = true
is_hot _ = false

-- The `WHERE` clause without its condition on the balance.
pub is_candidate : Option String → String → Row → Bool
unfolding is_hot
is_candidate contract_address blockchain r =
    is_hot r.vault.vault_type
    && (r.vault.is_active
        && (codes_eq (upper r.asset.blockchain) (upper blockchain)
            && same_text? r.asset.contract_address contract_address))

-- `w.vault_id = v.id AND w.asset_id = a.id`
pub join_row : Db → Wallet → Option Row
join_row db w = elim (get_vault db w.vault_id) [
  | none ↦ none
  | some v ↦ elim (get_asset db w.asset_id) [
    | none ↦ none
    | some a ↦ some (record { wallet = w; vault = v; asset = a })
  ]
]

cons_some {ℓ} : {A : Type ℓ} → Option A → List A → List A
cons_some none rs = rs
cons_some (some r) rs = r ∷ rs

pub join_rows : Db → List Wallet → List Row
unfolding cons_some
join_rows db [] = []
join_rows db (w ∷ ws) = cons_some (join_row db w) (join_rows db ws)

pub hot_rows : Db → Option String → String → List Row
unfolding join_row join_rows is_candidate
hot_rows db contract_address blockchain =
    select (is_candidate contract_address blockchain) (join_rows db db.wallets)

-- `ORDER BY v.is_primary DESC, available DESC`: whether `r` comes strictly before `s`. Of rows
-- that tie, the one that the table lists first is taken.
pub comes_before : Row → Row → Bool
comes_before r s =
    if r.vault.is_primary
    then (if s.vault.is_primary
        then ltb_ℤ (available_balance s.wallet) (available_balance r.wallet)
        else true)
    else (if s.vault.is_primary
        then false
        else ltb_ℤ (available_balance s.wallet) (available_balance r.wallet))

-- `ORDER BY … LIMIT 1`
pub first_row : List Row → Option Row
unfolding comes_before
first_row [] = none
first_row (r ∷ rs) = elim (first_row rs) [
  | none ↦ some r
  | some s ↦ if comes_before s r then some s else some r
]

pub can_pay : ℤ → Row → Bool
can_pay amount r = has_sufficient_balance r.wallet amount

-- The two exceptions that the function raises.
pub data Shortage : Type 0 where
  no_hot_wallet insufficient_balance : Shortage

pub data Selection : Type 0 where
  selected : Row → List Wallet → Selection
  short : Shortage → Selection

-- `check_row is None` or not
pub shortage : List Row → Shortage
shortage [] = no_hot_wallet
shortage (r ∷ rs) = insufficient_balance

-- The wallet that is returned is read again after the update.
unfoldable pub reserve_row : ℤ → Row → Row
reserve_row amount r = record r { wallet = reserve amount r.wallet }

pub choose_hot_row : Db → Option String → String → ℤ → Option Row
unfolding hot_rows can_pay first_row
choose_hot_row db contract_address blockchain amount =
    first_row (select (can_pay amount) (hot_rows db contract_address blockchain))

-- `row is None` or not; the second list are the rows of the query that tells the failures apart.
pub settle : ℤ → List Wallet → Option Row → List Row → Selection
unfolding reserve_row shortage
settle amount ws none seen = short (shortage seen)
settle amount ws (some r) seen =
    selected (reserve_row amount r) (
      update_where (λ w. w.id == r.wallet.id && has_sufficient_balance w amount) (reserve amount)
        ws)

unfoldable pub select_and_reserve_hot_wallet : Db → Option String → String → ℤ → Selection
unfolding choose_hot_row hot_rows settle
select_and_reserve_hot_wallet db contract_address blockchain amount =
    settle amount db.wallets (choose_hot_row db contract_address blockchain amount)
      (hot_rows db contract_address blockchain)

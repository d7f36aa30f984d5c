-- ===== src/Treasury/Balances.antt =====
-- app/api/treasury.py: the two reports on the balances of the active HOT, WARM and COLD vaults,
-- `get_balances_by_asset` and the sums of `get_treasury_overview`.
pub mod Agreement
use custody_service.Common.{
  ℕ, String, Bool, true, false, ◌&&◌, ◌==◌, ◌+◌, Option, none, some, List, [], ◌∷◌, ℤ, pos, ◌+ℤ◌,
  select, map, text_eq, append_text, if◌then◌else◌,
}
use custody_service.Models.{Db, Vault, Asset, Wallet, VaultType, get_asset}
use custody_service.Session.{Action, gets}
use custody_service.Activation.{holds_treasury}
use custody_service.Treasury.{wallets_of, total_of}

-- The vaults that both reports read.
abbrev pub reported : Db → List Vault
reported db = select (λ (v : Vault). v.is_active && holds_treasury v.vault_type) db.vaults

-- An entry of `asset_balances`, with its key.
pub record AssetBalance : Type 0 where
  pub key : String
  pub blockchain : String
  pub currency : String
  pub network : String
  pub hot : ℤ
  pub warm : ℤ
  pub cold : ℤ

-- `f"{blockchain}/{currency}/{network}"`
abbrev pub asset_key : Asset → String
asset_key a =
    append_text a.blockchain (append_text "/" (append_text a.symbol (append_text "/" a.network)))

abbrev pub no_balance : Asset → AssetBalance
no_balance a = record {
  key = asset_key a;
  blockchain = a.blockchain;
  currency = a.symbol;
  network = a.network;
  hot = pos 0;
  warm = pos 0;
  cold = pos 0;
}

-- `asset_balances[key][…] += balance`
abbrev pub add_balance : VaultType → ℤ → AssetBalance → AssetBalance
add_balance VaultType.hot n b = record b { hot = b.hot +ℤ n }
add_balance VaultType.warm n b = record b { warm = b.warm +ℤ n }
add_balance VaultType.cold n b = record b { cold = b.cold +ℤ n }
add_balance VaultType.regular n b = b
add_balance VaultType.operational n b = b

-- A new key is put at the end.
unfoldable pub add_to_asset : VaultType → Asset → ℤ → List AssetBalance → List AssetBalance
add_to_asset t a n [] = add_balance t n (no_balance a) ∷ []
add_to_asset t a n (b ∷ bs) =
    let rest = add_to_asset t a n bs in
    if text_eq b.key (asset_key a) then add_balance t n b ∷ bs else b ∷ rest

abbrev pub add_wallet_balance :
    VaultType → Wallet → Option Asset → List AssetBalance → List AssetBalance
add_wallet_balance t w none bs = bs
add_wallet_balance t w (some a) bs = add_to_asset t a w.balance bs

unfoldable pub add_wallets : Db → VaultType → List Wallet → List AssetBalance → List AssetBalance
unfolding add_to_asset
add_wallets db t [] bs = bs
add_wallets db t (w ∷ ws) bs =
    add_wallets db t ws (add_wallet_balance t w (get_asset db w.asset_id) bs)

unfoldable pub asset_balances : Db → List Vault → List AssetBalance → List AssetBalance
unfolding add_wallets
asset_balances db [] bs = bs
asset_balances db (v ∷ vs) bs =
    asset_balances db vs (add_wallets db v.vault_type (wallets_of db v.id) bs)

pub record AssetBalanceResponse : Type 0 where
  pub blockchain : String
  pub currency : String
  pub network : String
  pub hot_balance : ℤ
  pub warm_balance : ℤ
  pub cold_balance : ℤ
  pub total_balance : ℤ

abbrev pub asset_response : AssetBalance → AssetBalanceResponse
asset_response b = record {
  blockchain = b.blockchain;
  currency = b.currency;
  network = b.network;
  hot_balance = b.hot;
  warm_balance = b.warm;
  cold_balance = b.cold;
  total_balance = b.hot +ℤ b.warm +ℤ b.cold;
}

unfoldable pub get_balances_by_asset : Action (List AssetBalanceResponse)
unfolding asset_balances
get_balances_by_asset = gets (λ db. map asset_response (asset_balances db (reported db) []))

-- `type_balances[…]`
pub record TypeBalance : Type 0 where
  pub count : ℕ
  pub balance : ℤ
  pub target : Option ℕ

pub record TypeBalances : Type 0 where
  pub hot : TypeBalance
  pub warm : TypeBalance
  pub cold : TypeBalance

abbrev no_vaults : TypeBalance
no_vaults = record { count = 0; balance = pos 0; target = none }

abbrev pub no_types : TypeBalances
no_types = record { hot = no_vaults; warm = no_vaults; cold = no_vaults }

-- A target of zero is falsy.
abbrev pub target_or : Option ℕ → Option ℕ → Option ℕ
target_or none old = old
target_or (some n) old = if n == 0 then old else some n

abbrev pub add_vault_balance : Vault → ℤ → TypeBalance → TypeBalance
add_vault_balance v n b = record {
  count = b.count + 1;
  balance = b.balance +ℤ n;
  target = target_or v.target_balance_percent b.target;
}

abbrev pub add_to_type : VaultType → Vault → ℤ → TypeBalances → TypeBalances
add_to_type VaultType.hot v n b = record b { hot = add_vault_balance v n b.hot }
add_to_type VaultType.warm v n b = record b { warm = add_vault_balance v n b.warm }
add_to_type VaultType.cold v n b = record b { cold = add_vault_balance v n b.cold }
add_to_type VaultType.regular v n b = b
add_to_type VaultType.operational v n b = b

unfoldable pub type_balances : Db → List Vault → TypeBalances → TypeBalances
unfolding total_of
type_balances db [] b = b
type_balances db (v ∷ vs) b =
    type_balances db vs (add_to_type v.vault_type v (total_of (wallets_of db v.id)) b)

-- `total_balance = sum(tb["balance"] for tb in type_balances.values())`
abbrev pub total_balance : TypeBalances → ℤ
total_balance b = b.hot.balance +ℤ b.warm.balance +ℤ b.cold.balance

-- The sums that the overview is made from.
unfoldable pub overview_balances : Db → TypeBalances
unfolding type_balances
overview_balances db = type_balances db (reported db) no_types

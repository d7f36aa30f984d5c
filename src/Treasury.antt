-- ===== src/Treasury.antt =====
-- app/api/treasury.py: the vaults that hold the service's own funds, and which of them is the
-- primary one of its type.
pub mod Vaults
pub mod Wallets
pub mod Sync
pub mod Balances
pub mod Primary
pub mod Sequences
use custody_service.Common.{
  ℕ, String, Bool, true, false, ◌==◌, Option, none, some, List, [], ◌∷◌, ℤ, pos, ◌+ℤ◌, ltb_ℤ, eqb_ℤ,
  select, if◌then◌else◌,
}
use custody_service.Models.{Db, Vault, Asset, Wallet, VaultType, get_asset}
use custody_service.Session.{
  Action, Done, http, type_error, pure, or_raise, raise_if, gets, ◌>>=◌, ◌>>◌,
}

-- `vault_type in (HOT, WARM, COLD, OPERATIONAL)`
unfoldable pub is_treasury : VaultType → Bool
is_treasury VaultType.hot = true
is_treasury VaultType.warm = true
is_treasury VaultType.cold = true
is_treasury VaultType.operational = true
is_treasury VaultType.regular = false

pub record WalletBalanceInfo : Type 0 where
  pub wallet_id : ℕ
  pub asset_id : ℕ
  pub blockchain : String
  pub currency : String
  pub network : String
  pub address : String
  pub balance : ℤ

pub data Health : Type 0 where
  healthy low critical : Health

-- The fields `vault_id` to `description` of the response are the columns of the vault's row.
pub record TreasuryVaultResponse : Type 0 where
  pub vault : Vault
  pub total_balance_usd : ℤ
  pub wallets : List WalletBalanceInfo
  pub health_status : Health

abbrev pub balance_info : Wallet → Asset → ℤ → WalletBalanceInfo
balance_info w a balance = record {
  wallet_id = w.id;
  asset_id = w.asset_id;
  blockchain = a.blockchain;
  currency = a.symbol;
  network = a.network;
  address = w.address;
  balance = balance;
}

-- `vault.wallets`
abbrev pub wallets_of : Db → ℕ → List Wallet
wallets_of db vault_id = select (λ (w : Wallet). w.vault_id == vault_id) db.wallets

abbrev pub cons_info :
    Wallet → Option Asset → Option (List WalletBalanceInfo) → Option (List WalletBalanceInfo)
cons_info w none infos = none
cons_info w (some a) none = none
cons_info w (some a) (some infos) = some (balance_info w a w.balance ∷ infos)

-- `[WalletBalanceInfo(…) for w in vault.wallets]`; a wallet without an asset's row raises.
unfoldable pub wallet_infos : Db → List Wallet → Option (List WalletBalanceInfo)
wallet_infos db [] = some []
wallet_infos db (w ∷ ws) = cons_info w (get_asset db w.asset_id) (wallet_infos db ws)

-- `sum(Decimal(w.balance or "0") for w in …)`
unfoldable pub total_of : List Wallet → ℤ
total_of [] = pos 0
total_of (w ∷ ws) = w.balance +ℤ total_of ws

-- `_get_vault_health`; a minimum of zero is falsy, and `total < min * 1.5` is written in halves.
unfoldable pub _get_vault_health : Option ℤ → ℤ → Health
_get_vault_health none total = Health.healthy
_get_vault_health (some least) total =
    if eqb_ℤ least (pos 0)
    then Health.healthy
    else if ltb_ℤ total least
    then Health.critical
    else if ltb_ℤ (total +ℤ total) (least +ℤ least +ℤ least)
    then Health.low
    else Health.healthy

abbrev pub vault_response : Db → Vault → List WalletBalanceInfo → TreasuryVaultResponse
vault_response db v infos = record {
  vault = v;
  total_balance_usd = total_of (wallets_of db v.id);
  wallets = infos;
  health_status = _get_vault_health v.min_balance_usd (total_of (wallets_of db v.id));
}

-- ===== src/Treasury/Wallets.antt =====
-- app/api/treasury.py: `activate_asset_in_treasury_vault`, `get_primary_vault`,
-- `request_rebalance` and `reset_wallet_pending`.
use custody_service.Common.{
  ℕ, String, Bool, true, false, ◌==◌, ◌||◌, not, Option, none, some, ℤ, pos, any, find, select,
  update_where,
}
use custody_service.Models.{Vault, Asset, Wallet, VaultType, get_vault, get_asset}
use custody_service.Session.{
  Action, Done, http, type_error, pure, raise_if, or_raise, except, gets, modify, commit,
  scalar_one_or_none, ◌>>=◌, ◌>>◌,
}
use custody_service.Activation.{holds_treasury, wallet_of, insert, activate_asset_for_vault}
use custody_service.Bootstrap.{is_primary_of, data_of}
use custody_service.Treasury.{WalletBalanceInfo, TreasuryVaultResponse, balance_info, wallets_of}
use custody_service.Treasury.Vaults.{
  Setting, TreasuryAssetRequest, assets_for, treasury_vault, get_treasury_vault, undone_500,
}

-- The `try` after the search for the wallet: what was committed stays, even if the answer fails.
unfoldable pub activate_now : Setting → Vault → Asset → Action WalletBalanceInfo
unfolding activate_asset_for_vault
activate_now s v a =
    except
      (do
        made ← activate_asset_for_vault s.custody (s.custody.new_id 0) v (data_of s.is_testnet a)
        insert made
        commit
        found ← gets (λ db. s.asset_of_new db (wallet_of made))
        b ← or_raise found type_error
        pure (balance_info (wallet_of made) b (pos 0)))
      undone_500

abbrev pub known_wallet : Wallet → Action WalletBalanceInfo
known_wallet w = do
  found ← gets (λ db. get_asset db w.asset_id)
  b ← or_raise found type_error
  pure (balance_info w b w.balance)

abbrev pub or_activate : Setting → Vault → Asset → Option Wallet → Action WalletBalanceInfo
or_activate s v a none = activate_now s v a
or_activate s v a (some w) = known_wallet w

unfoldable pub activate_asset_in_treasury_vault :
    Setting → ℕ → TreasuryAssetRequest → Action WalletBalanceInfo
unfolding treasury_vault activate_now
activate_asset_in_treasury_vault s vault_id r = do
  v ← treasury_vault vault_id
  rows ← gets (assets_for s.is_testnet r)
  found ← scalar_one_or_none rows
  a ← or_raise found (http 404)
  wallet ← gets (λ db. find (λ (w : Wallet). w.asset_id == a.id) (wallets_of db v.id))
  or_activate s v a wallet

unfoldable pub get_primary_vault : VaultType → Action TreasuryVaultResponse
unfolding get_treasury_vault
get_primary_vault t = do
  raise_if (not (holds_treasury t)) (http 400)
  rows ← gets (λ db. select (is_primary_of t) db.vaults)
  found ← scalar_one_or_none rows
  v ← or_raise found (http 404)
  get_treasury_vault v.id

-- `requires_approval`
abbrev pub requires_approval : VaultType → Bool
requires_approval VaultType.warm = true
requires_approval VaultType.cold = true
requires_approval _ = false

-- The request's fields are the arguments; its `status` and `message` follow `requires_approval`.
pub record RebalanceResponse : Type 0 where
  pub transfer_id : ℕ
  pub source_vault : String
  pub destination_vault : String
  pub amount : ℤ
  pub currency : String
  pub requires_approval : Bool

unfoldable pub request_rebalance : ℕ → ℕ → ℕ → ℕ → ℤ → Action RebalanceResponse
request_rebalance new_id source_vault_id destination_vault_id asset_id amount = do
  source ← gets (λ db. get_vault db source_vault_id)
  v ← or_raise source (http 404)
  destination ← gets (λ db. get_vault db destination_vault_id)
  u ← or_raise destination (http 404)
  raise_if (not (holds_treasury v.vault_type) || not (holds_treasury u.vault_type)) (http 400)
  found ← gets (λ db. get_asset db asset_id)
  a ← or_raise found (http 404)
  pure (record {
    transfer_id = new_id;
    source_vault = v.name;
    destination_vault = u.name;
    amount = amount;
    currency = a.symbol;
    requires_approval = requires_approval v.vault_type;
  })

-- The commit comes before the check that there is such a wallet.
unfoldable pub reset_wallet_pending : ℕ → Action Done
reset_wallet_pending wallet_id = do
  found ← gets (λ db. any (λ (w : Wallet). w.id == wallet_id) db.wallets)
  modify (λ db. record db {
    wallets =
        update_where (λ (w : Wallet). w.id == wallet_id) (λ w. record w { pending_amount = pos 0 })
          db.wallets;
  })
  commit
  raise_if (not found) (http 404)

-- ===== src/Bootstrap/Effects.antt =====
-- The auto-activation keeps what an activation keeps.
use custody_service.Common.{String, Bool, Option, none, some, List}
use custody_service.Models.{Db, Vault, Asset, Wallet}
use custody_service.Custody.{Custody}
use custody_service.Session.Keeping.{IsKeeping, keeping}
use custody_service.Activation.Effects.{
  Admits, insert-IsKeeping, activate_asset_for_vault-IsKeeping,
}
use custody_service.Bootstrap.{
  ensure_asset_in_hot_wallet, vault_or_false, asset_or_false, wallet_or_activate,
}

module _ (I : Db → Type 0) (h : Admits I) (c : Custody) (is_testnet : Bool) where
  wallet_or_activate-IsKeeping :
      (v : Vault) (a : Asset) (ws : List Wallet)
      → IsKeeping I (wallet_or_activate c is_testnet v a ws)
  wallet_or_activate-IsKeeping v a ws =
      search (keeping, insert-IsKeeping I h, activate_asset_for_vault-IsKeeping I h) depth 12

  asset_or_false-IsKeeping :
      (v : Vault) (a : Option Asset) → IsKeeping I (asset_or_false c is_testnet v a)
  asset_or_false-IsKeeping v none = search keeping
  asset_or_false-IsKeeping v (some a) = search (keeping, wallet_or_activate-IsKeeping) depth 12

  vault_or_false-IsKeeping :
      (b s : Option String) (v : Option Vault) → IsKeeping I (vault_or_false c is_testnet b s v)
  vault_or_false-IsKeeping b s none = search keeping
  vault_or_false-IsKeeping b s (some v) = search (keeping, asset_or_false-IsKeeping) depth 12

  pub ensure_asset_in_hot_wallet-IsKeeping :
      (b s : Option String) → IsKeeping I (ensure_asset_in_hot_wallet c is_testnet b s)
  unfolding ensure_asset_in_hot_wallet
  ensure_asset_in_hot_wallet-IsKeeping b s = search (keeping, vault_or_false-IsKeeping) depth 12

-- ===== src/Webhook/Wallets.antt =====
-- app/dao/webhook/common.py: the vault, wallet and asset that a notification is about.
use custody_service.Common.{
  ℕ, String, Bool, not, ◌&&◌, ◌==◌, Option, none, some, select, find, is_some, is_filled,
  same_text?, text_eq, if◌then◌else◌,
}
use custody_service.Models.{Vault, Asset, Wallet}
use custody_service.Fireblocks.Assets.{FbAsset, Metadata, parse_fireblocks_asset}
use custody_service.Outside.{Outside}
use custody_service.Session.{
  Action, provider_error, pure, or_raise, gets, scalar_one_or_none, ◌>>=◌,
}
use custody_service.Webhook.Payload.{Peer, Details}

pub record WalletInfo : Type 0 where
  pub vault_id : ℕ
  pub wallet_id : Option ℕ
  pub asset_id : Option ℕ
  pub blockchain : Option String
  pub currency : Option String

-- `fb_asset.get("contractAddress") or fb_asset.get("issuerAddress")`
abbrev pub contract_of : FbAsset → Option String
contract_of a = if is_filled a.contract_address then a.contract_address else a.issuer_address

-- A token by its contract, a coin by its blockchain; on the test networks or on the main ones.
pub is_canonical : FbAsset → Metadata → Asset → Bool
is_canonical fb m a =
    a.is_active
    && ((if is_filled (contract_of fb)
          then same_text? a.contract_address (contract_of fb)
          else text_eq a.blockchain m.blockchain && a.is_native)
        && (if m.is_testnet then is_some a.testnet else not (is_some a.testnet)))

abbrev pub canonical : FbAsset → Option Metadata → Action (Option Asset)
canonical fb none = pure none
canonical fb (some m) = do
  rows ← gets (λ db. select (is_canonical fb m) db.assets)
  scalar_one_or_none rows

abbrev pub listed : String → Option FbAsset → Action (Option Asset)
listed i none = pure none
listed i (some fb) = canonical fb (parse_fireblocks_asset i fb)

unfoldable pub find_asset_by_fireblocks_id : Outside → String → Action (Option Asset)
unfolding is_canonical
find_asset_by_fireblocks_id o fireblocks_asset_id = do
  assets ← or_raise o.supported_assets provider_error
  listed fireblocks_asset_id (find (λ (a : FbAsset). text_eq a.id fireblocks_asset_id) assets)

abbrev pub wallet_id_of : Option Wallet → Option ℕ
wallet_id_of none = none
wallet_id_of (some w) = some w.id

abbrev pub with_asset : Vault → Option Asset → Action WalletInfo
with_asset v none = pure (record {
  vault_id = v.id;
  wallet_id = none;
  asset_id = none;
  blockchain = none;
  currency = none;
})
with_asset v (some a) = do
  rows ← gets (λ db. select (λ (w : Wallet). w.vault_id == v.id && w.asset_id == a.id) db.wallets)
  wallet ← scalar_one_or_none rows
  pure (record {
    vault_id = v.id;
    wallet_id = wallet_id_of wallet;
    asset_id = some a.id;
    blockchain = some a.blockchain;
    currency = some a.symbol;
  })

-- `if tx.assetId: …`
unfoldable pub asset_named : Outside → Option String → Action (Option Asset)
unfolding find_asset_by_fireblocks_id
asset_named o none = pure none
asset_named o (some i) = if is_filled (some i) then find_asset_by_fireblocks_id o i else pure none

unfoldable pub identify_in : Outside → Details → Option Vault → Action (Option WalletInfo)
unfolding asset_named
identify_in o d none = pure none
identify_in o d (some v) = do
  asset ← asset_named o d.asset_id
  info ← with_asset v asset
  pure (some info)

abbrev pub peer_id : Option Peer → Option String
peer_id none = none
peer_id (some p) = p.id

-- The wallet of one side of the notification.
abbrev pub identify : Outside → Details → Option String → Action (Option WalletInfo)
identify o d none = pure none
identify o d (some i) =
    if is_filled (some i)
    then (do
      vault ← gets (λ db. find (λ (v : Vault). text_eq v.provider_vault_id i) db.vaults)
      identify_in o d vault)
    else pure none

unfoldable pub identify_wallet : Outside → Details → Action (Option WalletInfo)
unfolding identify_in
identify_wallet o d = identify o d (peer_id d.destination)

unfoldable pub identify_source_wallet : Outside → Details → Action (Option WalletInfo)
unfolding identify_in
identify_source_wallet o d = identify o d (peer_id d.source)

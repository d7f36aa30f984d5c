-- ===== src/Activation.antt =====
-- app/dao/asset.py: the activation of an asset in a vault, which makes or refreshes the wallet of
-- the vault for the asset, with the address that the custody provider gives.
pub mod Effects
use custody_service.Common.{
  ℕ, String, Bool, true, false, ◌&&◌, ◌||◌, ◌==◌, not, Option, none, some, List, [], ◌∷◌, ◌++◌, pos,
  select, update_where, upper, codes, codes_eq, is_filled, text_eq, is_some, if◌then◌else◌,
}
use custody_service.Models.{
  Db, Vault, Asset, Wallet, VaultType, hot, warm, cold, regular, operational, get_vault, get_asset,
}
use custody_service.Custody.{Custody, Reply, answer, failure, Address, replied, mentions, filled}
use custody_service.Session.{
  Action, Done, value_error, provider_error, whitelist_address, pure, raise, or_raise, gets, modify,
  send, commit, scalar_one_or_none, ◌>>=◌, ◌>>◌,
}

-- `asset_data`
pub record AssetData : Type 0 where
  pub blockchain : String
  pub currency : String
  pub network : String
  pub testnet : Option String
  pub is_testnet : Bool

-- `column == text.upper()`
abbrev pub equals_upper : String → String → Bool
equals_upper column text = codes_eq (codes column) (upper text)

abbrev has_testnet : Option String → String → Bool
has_testnet none testnet = false
has_testnet (some name) testnet = equals_upper name testnet

-- `if testnet: AssetModel.testnet == testnet.upper() else: AssetModel.testnet IS NULL`
abbrev pub on_testnet : Option String → Asset → Bool
on_testnet none a = not (is_some a.testnet)
on_testnet (some t) a =
    if is_filled (some t) then has_testnet a.testnet t else not (is_some a.testnet)

unfoldable pub _find_asset_by_params : String → String → Option String → Action (Option Asset)
_find_asset_by_params blockchain currency testnet = do
  rows ← gets (λ db.
      select
        (λ (a : Asset).
          equals_upper a.blockchain blockchain
          && (equals_upper a.symbol currency && (a.is_active && on_testnet testnet a)))
        db.assets)
  scalar_one_or_none rows

-- `testnet_map.get(blockchain.upper(), "TESTNET")`
unfoldable pub testnet_name : String → String
testnet_name blockchain =
    if codes_eq (upper blockchain) (codes "ETHEREUM")
    then "SEPOLIA"
    else if codes_eq (upper blockchain) (codes "TRON")
    then "SHASTA"
    else "TESTNET"

-- `if asset_data.get("is_testnet") and not testnet: testnet = …`
unfoldable pub testnet_for : AssetData → Option String
unfolding testnet_name
testnet_for d =
    if d.is_testnet && not (is_filled d.testnet)
    then some (testnet_name d.blockchain)
    else d.testnet

-- `_resolve_fireblocks_id`
unfoldable pub _resolve_fireblocks_id : Custody → Asset → Action String
_resolve_fireblocks_id c a = do
  found ←
      replied (c.find_asset_by_contract_or_currency a.symbol a.contract_address (is_some a.testnet))
  or_raise (elim found [ none ↦ none | some i ↦ filled (some i) ]) value_error

abbrev no_address : Address
no_address = record { address = ""; legacy_address = none; tag = none }

abbrev info_or_empty : Option Address → Address
info_or_empty none = no_address
info_or_empty (some x) = x

-- `try: activate_asset … except: if "already exists" in …: get_vault_asset_info … else: raise`
unfoldable pub activated : Custody → String → String → Reply Address → Action Address
activated c vault_id fb_asset_id (answer x) = pure x
activated c vault_id fb_asset_id (failure message) =
    if mentions message "already exists"
    then (do
      info ← replied (c.get_vault_asset_info vault_id fb_asset_id)
      pure (info_or_empty info))
    else raise provider_error

-- `vault.vault_type in ("hot", "warm", "cold")`
abbrev pub holds_treasury : VaultType → Bool
holds_treasury VaultType.hot = true
holds_treasury VaultType.warm = true
holds_treasury VaultType.cold = true
holds_treasury VaultType.regular = false
holds_treasury VaultType.operational = false

-- Whether the provider takes the address is only logged.
abbrev pub whitelist_if_treasury : Vault → String → String → Action Done
whitelist_if_treasury v fb_asset_id address =
    if holds_treasury v.vault_type && not (text_eq address "")
    then send (whitelist_address v.provider_vault_id fb_asset_id address)
    else pure tt

abbrev pub new_wallet : ℕ → Vault → Asset → Address → Wallet
new_wallet id v a x = record {
  id = id;
  vault_id = v.id;
  asset_id = a.id;
  address = x.address;
  legacy_address = x.legacy_address;
  tag = x.tag;
  balance = pos 0;
  pending_amount = pos 0;
}

abbrev pub add_wallet : Wallet → Action Done
add_wallet w = modify (λ db. record db { wallets = db.wallets ++ w ∷ [] })

abbrev pub with_address : Address → Wallet → Wallet
with_address x w = record w { address = x.address; legacy_address = x.legacy_address; tag = x.tag }

abbrev pub refresh_wallet : Address → Wallet → Action Done
refresh_wallet x w = modify (λ db. record db {
  wallets = update_where (λ (u : Wallet). u.id == w.id) (with_address x) db.wallets;
})

-- The wallets of a vault for an asset.
abbrev pub wallets_for : ℕ → ℕ → Db → List Wallet
wallets_for vault_id asset_id db =
    select (λ (w : Wallet). w.vault_id == vault_id && w.asset_id == asset_id) db.wallets

-- What an activation ends with: a wallet of the table, or one that the session will insert with its
-- next flush. The sessions do not flush by themselves, so that no query sees the new wallet before.
pub data Activated : Type 0 where
  existing : Wallet → Activated
  added : ℕ → Vault → Asset → Address → Activated

abbrev pub wallet_of : Activated → Wallet
wallet_of (existing w) = w
wallet_of (added id v a x) = new_wallet id v a x

-- The flush of what an activation has left to insert.
abbrev pub insert : Activated → Action Done
insert (existing w) = pure tt
insert (added id v a x) = add_wallet (new_wallet id v a x)

-- The end of the activation: an existing wallet is with_address, or a new one is made.
unfoldable pub place_wallet :
    ℕ → Vault → Asset → String → Address → Option Wallet → Action Activated
place_wallet id v a fb_asset_id x (some w) = do
  refresh_wallet x w
  pure (existing (with_address x w))
place_wallet id v a fb_asset_id x none = do
  whitelist_if_treasury v fb_asset_id x.address
  pure (added id v a x)

unfoldable pub activate_asset_for_vault : Custody → ℕ → Vault → AssetData → Action Activated
activate_asset_for_vault c id v d = do
  asset ← _find_asset_by_params d.blockchain d.currency (testnet_for d)
  a ← or_raise asset value_error
  rows ← gets (wallets_for v.id a.id)
  existing_wallet ← scalar_one_or_none rows
  fb_asset_id ← _resolve_fireblocks_id c a
  x ← activated c v.provider_vault_id fb_asset_id (c.activate_asset v.provider_vault_id fb_asset_id)
  place_wallet id v a fb_asset_id x existing_wallet

abbrev existing_or : Action Wallet → Option Wallet → Action Wallet
existing_or make none = make
existing_or make (some w) = pure w

unfoldable pub create_asset_in_vault : Custody → ℕ → ℕ → ℕ → Action Wallet
unfolding _resolve_fireblocks_id
create_asset_in_vault c id vault_id asset_id = do
  vault ← gets (λ db. get_vault db vault_id)
  v ← or_raise vault value_error
  asset ← gets (λ db. get_asset db asset_id)
  a ← or_raise asset value_error
  rows ← gets (wallets_for vault_id asset_id)
  existing_wallet ← scalar_one_or_none rows
  existing_or
      (do
        fb_asset_id ← _resolve_fireblocks_id c a
        x ← replied (c.activate_asset v.provider_vault_id fb_asset_id)
        whitelist_if_treasury v fb_asset_id x.address
        add_wallet (new_wallet id v a x)
        commit
        pure (new_wallet id v a x))
      existing_wallet

-- ===== src/Treasury/Vaults.antt =====
-- app/api/treasury.py: the endpoints that make, show and change a treasury vault, and those that
-- name the primary one and ask for a rebalancing.
use custody_service.Common.{
  ℕ, String, Bool, true, false, ◌&&◌, ◌==◌, not, Option, none, some, List, [], ◌∷◌, ℤ, pos, any,
  select, update_where, text_eq, ◌+◌,
}
use custody_service.Models.{Db, Vault, Asset, Wallet, VaultType, VaultStatus, get_vault}
use custody_service.Custody.{Custody, replied}
use custody_service.Session.{
  Action, Done, Error, http, type_error, integrity_error, pure, raise, raise_if, or_raise, except,
  gets, modify, commit, rollback, scalar_one_or_none, ◌>>=◌, ◌>>◌,
}
use custody_service.Activation.{
  equals_upper, Activated, wallet_of, insert, activate_asset_for_vault,
}
use custody_service.Bootstrap.{
  same_type, is_primary_of, set_primary, save_vault, add_vault, has_contract_of, is_on_net, data_of,
}
use custody_service.Treasury.{
  is_treasury, WalletBalanceInfo, TreasuryVaultResponse, balance_info, wallets_of, wallet_infos,
  vault_response, Health,
}

pub record TreasuryAssetRequest : Type 0 where
  pub blockchain : String
  pub contract_address : Option String

pub record TreasuryVaultCreateRequest : Type 0 where
  pub name : String
  pub vault_type : VaultType
  pub assets : List TreasuryAssetRequest
  pub is_primary : Bool
  pub min_balance_usd : Option ℤ
  pub max_balance_usd : Option ℤ
  pub target_balance_percent : Option ℕ
  pub auto_refill_enabled : Bool
  pub auto_refill_threshold_percent : Option ℕ
  pub auto_refill_target_percent : Option ℕ
  pub description : Option String

pub record TreasuryVaultUpdateRequest : Type 0 where
  pub min_balance_usd : Option ℤ
  pub max_balance_usd : Option ℤ
  pub target_balance_percent : Option ℕ
  pub auto_refill_enabled : Option Bool
  pub auto_refill_threshold_percent : Option ℕ
  pub auto_refill_target_percent : Option ℕ
  pub is_primary : Option Bool
  pub description : Option String

-- The service's setting `is_testnet`, the provider, and what `wallet.asset` is of a wallet that was
-- just made, which the database library decides.
pub record Setting : Type 0 where
  pub is_testnet : Bool
  pub custody : Custody
  pub asset_of_new : Db → Wallet → Option Asset

unfoldable pub treasury_response : Vault → Action TreasuryVaultResponse
treasury_response v = do
  found ← gets (λ db. wallet_infos db (wallets_of db v.id))
  infos ← or_raise found type_error
  gets (λ db. vault_response db v infos)

-- The vault, if it is one of the treasury: 404 or 400 otherwise.
unfoldable pub treasury_vault : ℕ → Action Vault
treasury_vault vault_id = do
  found ← gets (λ db. get_vault db vault_id)
  v ← or_raise found (http 404)
  raise_if (not (is_treasury v.vault_type)) (http 400)
  pure v

unfoldable pub get_treasury_vault : ℕ → Action TreasuryVaultResponse
unfolding treasury_response treasury_vault
get_treasury_vault vault_id = do v ← treasury_vault vault_id; treasury_response v

abbrev pub unset : Option Vault → Action Done
unset none = pure tt
unset (some v) = save_vault (set_primary false v)

-- `if request.is_primary: …`: the primary vault of the type, if there is one, is unset.
unfoldable pub make_room : Bool → VaultType → Action Done
make_room false t = pure tt
make_room true t = do
  rows ← gets (λ db. select (is_primary_of t) db.vaults)
  existing_primary ← scalar_one_or_none rows
  unset existing_primary

abbrev pub created_vault : ℕ → String → TreasuryVaultCreateRequest → Vault
created_vault id provider_vault_id q = record {
  id = id;
  provider_vault_id = provider_vault_id;
  name = q.name;
  vault_type = q.vault_type;
  is_primary = q.is_primary;
  min_balance_usd = q.min_balance_usd;
  max_balance_usd = q.max_balance_usd;
  target_balance_percent = q.target_balance_percent;
  auto_refill_enabled = q.auto_refill_enabled;
  auto_refill_threshold_percent = q.auto_refill_threshold_percent;
  auto_refill_target_percent = q.auto_refill_target_percent;
  status = VaultStatus.available;
  is_active = true;
  description = q.description;
}

-- The rows of a request's asset.
abbrev pub assets_for : Bool → TreasuryAssetRequest → Db → List Asset
assets_for is_testnet r db =
    select
      (λ (a : Asset).
        equals_upper a.blockchain r.blockchain
        && (has_contract_of r.contract_address a && (a.is_active && is_on_net is_testnet a)))
      db.assets

-- What the loop over the request's assets has made, and what it has described in the response.
pub record Activations : Type 0 where
  pub made : List Activated
  pub infos : List WalletBalanceInfo

abbrev no_activations : Activations
no_activations = record { made = []; infos = [] }

-- `wallet.asset.…` raises where the wallet's asset is not loaded; the wallet stays.
abbrev add_described : Activated → Option Asset → Activations → Activations
add_described a none rest = record rest { made = a ∷ rest.made }
add_described a (some b) rest = record {
  made = a ∷ rest.made;
  infos = balance_info (wallet_of a) b (pos 0) ∷ rest.infos;
}

abbrev with_activation : Option (Activated × Option Asset) → Activations → Activations
with_activation none rest = rest
with_activation (some (a, b)) rest = add_described a b rest

abbrev pub activate_found :
    Setting → ℕ → Vault → Option Asset → Action (Option (Activated × Option Asset))
activate_found s k v none = pure none
activate_found s k v (some a) = do
  made ← activate_asset_for_vault s.custody (s.custody.new_id k) v (data_of s.is_testnet a)
  found ← gets (λ db. s.asset_of_new db (wallet_of made))
  pure (some (made, found))

-- One pass of the loop over the request's assets: a failure is only logged.
abbrev pub activate_one :
    Setting → ℕ → Vault → TreasuryAssetRequest → Action (Option (Activated × Option Asset))
activate_one s k v r =
    except
      (do
        rows ← gets (assets_for s.is_testnet r)
        found ← scalar_one_or_none rows
        activate_found s k v found)
      (λ e. pure none)

unfoldable pub activate_each : Setting → ℕ → Vault → List TreasuryAssetRequest → Action Activations
unfolding activate_asset_for_vault
activate_each s k v [] = pure no_activations
activate_each s k v (r ∷ rs) = do
  done ← activate_one s k v r
  rest ← activate_each s (k + 1) v rs
  pure (with_activation done rest)

-- The flush of the new wallets, which is part of the commit.
unfoldable pub insert_each : List Activated → Action Done
insert_each [] = pure tt
insert_each (a ∷ rest) = do insert a; insert_each rest

abbrev pub undone_500 : {A : Type 0} → Error → Action A
undone_500 e = do rollback; raise (http 500)

abbrev new_response : Vault → List WalletBalanceInfo → TreasuryVaultResponse
new_response v infos = record {
  vault = v;
  total_balance_usd = pos 0;
  wallets = infos;
  health_status = Health.healthy;
}

-- The body of the `try`. A provider id that another vault has breaks the column's uniqueness.
unfoldable pub insert_treasury_vault :
    Setting → TreasuryVaultCreateRequest → Action TreasuryVaultResponse
unfolding activate_each insert_each
insert_treasury_vault s q = do
  provider_vault_id ← replied (s.custody.create_vault q.name)
  taken ← gets (λ db. any (λ (v : Vault). text_eq v.provider_vault_id provider_vault_id) db.vaults)
  raise_if taken integrity_error
  add_vault (created_vault (s.custody.new_id 0) provider_vault_id q)
  done ← activate_each s 1 (created_vault (s.custody.new_id 0) provider_vault_id q) q.assets
  insert_each done.made
  commit
  pure (new_response (created_vault (s.custody.new_id 0) provider_vault_id q) done.infos)

unfoldable pub create_treasury_vault :
    Setting → TreasuryVaultCreateRequest → Action TreasuryVaultResponse
unfolding is_treasury make_room insert_treasury_vault
create_treasury_vault s q = do
  raise_if (not (is_treasury q.vault_type)) (http 400)
  make_room q.is_primary q.vault_type
  except (insert_treasury_vault s q) undone_500

-- `if request.x is not None: vault.x = request.x`
abbrev or_new : {A : Type 0} → Option A → Option A → Option A
or_new none old = old
or_new (some x) old = some x

abbrev or_flag : Option Bool → Bool → Bool
or_flag none old = old
or_flag (some b) old = b

abbrev pub with_settings : TreasuryVaultUpdateRequest → Vault → Vault
with_settings q v = record v {
  min_balance_usd = or_new q.min_balance_usd v.min_balance_usd;
  max_balance_usd = or_new q.max_balance_usd v.max_balance_usd;
  target_balance_percent = or_new q.target_balance_percent v.target_balance_percent;
  auto_refill_enabled = or_flag q.auto_refill_enabled v.auto_refill_enabled;
  auto_refill_threshold_percent =
      or_new q.auto_refill_threshold_percent v.auto_refill_threshold_percent;
  auto_refill_target_percent = or_new q.auto_refill_target_percent v.auto_refill_target_percent;
  description = or_new q.description v.description;
}

-- The other primary vaults of the type, active or not, are unset.
abbrev pub is_rival : Vault → Vault → Bool
is_rival v u = same_type u.vault_type v.vault_type && (u.is_primary && not (u.id == v.id))

abbrev pub unset_rivals : Vault → Action Done
unset_rivals v =
    modify (λ db. record db { vaults = update_where (is_rival v) (set_primary false) db.vaults })

unfoldable pub assign_primary : Option Bool → Vault → Action Done
assign_primary none v = save_vault v
assign_primary (some true) v = do unset_rivals v; save_vault (set_primary true v)
assign_primary (some false) v = save_vault (set_primary false v)

unfoldable pub update_treasury_vault : ℕ → TreasuryVaultUpdateRequest → Action TreasuryVaultResponse
unfolding treasury_vault assign_primary get_treasury_vault
update_treasury_vault vault_id q = do
  v ← treasury_vault vault_id
  assign_primary q.is_primary (with_settings q v)
  commit
  get_treasury_vault vault_id

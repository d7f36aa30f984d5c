-- ===== src/Bootstrap.antt =====
-- app/services/treasury_bootstrap.py: the default HOT vault that the service sees to at its start,
-- and the wallet of the primary HOT vault for an asset that a payout asks for.
pub mod Effects
use custody_service.Common.{
  ℕ, String, Bool, true, false, ◌&&◌, ◌||◌, ◌==◌, not, Option, none, some, List, [], ◌∷◌, ◌++◌,
  select, update_where, upper, codes_eq, is_filled, text_eq, is_some, same_text?, if◌then◌else◌,
}
use custody_service.Models.{Db, Vault, Asset, Wallet, VaultType, VaultStatus}
use custody_service.Custody.{Custody, Reply, answer, failure, ProviderVault, replied, includes}
use custody_service.Session.{
  Action, Done, Error, type_error, provider_error, pure, raise, or_raise, gets, modify, commit,
  rollback, except, scalar_one_or_none, ◌>>=◌, ◌>>◌,
}
use custody_service.Activation.{AssetData, wallets_for, insert, activate_asset_for_vault}

abbrev pub rank : VaultType → ℕ
rank VaultType.hot = 0
rank VaultType.warm = 1
rank VaultType.cold = 2
rank VaultType.regular = 3
rank VaultType.operational = 4

-- Equality of two vault types.
abbrev pub same_type : VaultType → VaultType → Bool
same_type s t = rank s == rank t

-- `vault_type == t AND is_active`, and with `is_primary`
abbrev pub is_active_of : VaultType → Vault → Bool
is_active_of t v = same_type v.vault_type t && v.is_active

abbrev pub is_primary_of : VaultType → Vault → Bool
is_primary_of t v = same_type v.vault_type t && (v.is_primary && v.is_active)

-- Attributes of a loaded vault are assigned, and flushed to its row.
abbrev pub save_vault : Vault → Action Done
save_vault v =
    modify
      (λ db. record db { vaults = update_where (λ (u : Vault). u.id == v.id) (λ _. v) db.vaults })

abbrev pub set_primary : Bool → Vault → Vault
set_primary b v = record v { is_primary = b }

abbrev pub add_vault : Vault → Action Done
add_vault v = modify (λ db. record db { vaults = db.vaults ++ v ∷ [] })

-- `VaultModel(…)` with the columns that are given and the defaults of the others.
abbrev pub plain_vault : ℕ → String → String → VaultType → Bool → Option String → Vault
plain_vault id provider_vault_id name vault_type is_primary description = record {
  id = id;
  provider_vault_id = provider_vault_id;
  name = name;
  vault_type = vault_type;
  is_primary = is_primary;
  min_balance_usd = none;
  max_balance_usd = none;
  target_balance_percent = none;
  auto_refill_enabled = false;
  auto_refill_threshold_percent = none;
  auto_refill_target_percent = none;
  status = VaultStatus.available;
  is_active = true;
  description = description;
}

abbrev hot_default : String
hot_default = "HOT_DEFAULT"

-- The first vault of the provider with the default name; `fb_vault["id"]` raises without an id.
unfoldable pub default_among : List ProviderVault → Action (Option String)
default_among [] = pure none
default_among (v ∷ vs) =
    let rest = default_among vs in
    if same_text? v.name (some hot_default)
    then (do i ← or_raise v.id type_error; pure (some i))
    else rest

-- `provider.create_vault`, or the vault of this name that the provider already has.
unfoldable pub provider_vault : Custody → Reply String → Action (Option String)
provider_vault c (answer i) = pure (some i)
provider_vault c (failure message) =
    if includes message "already exists" || includes message "9004"
    then (do vaults ← replied (c.get_vaults (some hot_default)); default_among vaults)
    else raise provider_error

abbrev pub default_vault : ℕ → String → Vault
default_vault id provider_vault_id =
    plain_vault id provider_vault_id hot_default VaultType.hot true
      (some "Default HOT wallet created automatically")

abbrev pub insert_default : Custody → Option String → Action (Option Vault)
insert_default c none = pure none
insert_default c (some i) = do
  add_vault (default_vault (c.new_id 0) i)
  commit
  pure (some (default_vault (c.new_id 0) i))

-- Without a primary vault: the only HOT vault becomes it, or the default one is made.
unfoldable pub without_primary : Custody → Option Vault → Action (Option Vault)
without_primary c (some v) = do
  save_vault (set_primary true v)
  commit
  pure (some (set_primary true v))
without_primary c none = do
  found ← provider_vault c (c.create_vault hot_default)
  insert_default c found

abbrev or_bootstrap : Action (Option Vault) → Option Vault → Action (Option Vault)
or_bootstrap m none = m
or_bootstrap m (some v) = pure (some v)

abbrev pub nothing_made : {A : Type 0} → A → Error → Action A
nothing_made a e = do rollback; pure a

unfoldable pub bootstrap_default_hot_wallet : Custody → Action (Option Vault)
bootstrap_default_hot_wallet c =
    except
      (do
        rows ← gets (λ db. select (is_primary_of VaultType.hot) db.vaults)
        existing_primary ← scalar_one_or_none rows
        or_bootstrap
            (do
              hot_rows ← gets (λ db. select (is_active_of VaultType.hot) db.vaults)
              any_hot ← scalar_one_or_none hot_rows
              without_primary c any_hot)
            existing_primary)
      (nothing_made none)

-- `contract_address == …` or `IS NULL`, by Python's truth value of the request's contract.
abbrev pub has_contract_of : Option String → Asset → Bool
has_contract_of contract_address a =
    if is_filled contract_address
    then same_text? a.contract_address contract_address
    else not (is_some a.contract_address)

abbrev pub is_on_net : Bool → Asset → Bool
is_on_net true a = is_some a.testnet
is_on_net false a = not (is_some a.testnet)

-- What the callers of the activation take from an asset's row.
abbrev pub data_of : Bool → Asset → AssetData
data_of is_testnet a = record {
  blockchain = a.blockchain;
  currency = a.symbol;
  network = a.network;
  testnet = none;
  is_testnet = is_testnet;
}

abbrev pub upper_is : String → Asset → Bool
upper_is blockchain a = codes_eq (upper a.blockchain) (upper blockchain)

abbrev wallet_or_activate : Custody → Bool → Vault → Asset → List Wallet → Action Bool
wallet_or_activate c is_testnet v a rows = do
  existing_wallet ← scalar_one_or_none rows
  (if is_some existing_wallet then pure true else (do
    made ← activate_asset_for_vault c (c.new_id 0) v (data_of is_testnet a)
    insert made
    commit
    pure true))

abbrev asset_or_false : Custody → Bool → Vault → Option Asset → Action Bool
asset_or_false c is_testnet v none = pure false
asset_or_false c is_testnet v (some a) = do
  rows ← gets (wallets_for v.id a.id)
  wallet_or_activate c is_testnet v a rows

-- The asset's row is looked up in upper case. A request without a blockchain raises there.
abbrev vault_or_false : Custody → Bool → Option String → Option String → Option Vault → Action Bool
vault_or_false c is_testnet blockchain contract_address none = pure false
vault_or_false c is_testnet blockchain contract_address (some v) = do
  chain ← or_raise blockchain type_error
  rows ← gets (λ db.
      select
        (λ a.
          upper_is chain a
          && (has_contract_of contract_address a && (a.is_active && is_on_net is_testnet a)))
        db.assets)
  asset ← scalar_one_or_none rows
  asset_or_false c is_testnet v asset

unfoldable pub ensure_asset_in_hot_wallet :
    Custody → Bool → Option String → Option String → Action Bool
unfolding activate_asset_for_vault
ensure_asset_in_hot_wallet c is_testnet blockchain contract_address =
    except
      (do
        rows ← gets (λ db. select (is_primary_of VaultType.hot) db.vaults)
        hot_vault ← scalar_one_or_none rows
        vault_or_false c is_testnet blockchain contract_address hot_vault)
      (nothing_made false)

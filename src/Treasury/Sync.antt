-- ===== src/Treasury/Sync.antt =====
-- app/api/treasury.py, `sync_vaults_from_fireblocks`: the provider's vaults that the tables miss
-- are added, with a type that is read from their name.
use custody_service.Common.{
  ℕ, String, false, ◌||◌, Option, none, some, List, [], ◌∷◌, ◌+◌, select, take, length, text_eq,
  is_filled, if◌then◌else◌,
}
use custody_service.Models.{Vault, VaultType}
use custody_service.Custody.{Custody, ProviderVault, replied, mentions, filled}
use custody_service.Session.{Action, Done, pure, gets, commit, scalar_one_or_none, ◌>>=◌, ◌>>◌}
use custody_service.Bootstrap.{plain_vault, add_vault}

-- `fb_vault.get("id") or fb_vault.get("vaultAccountId")`
abbrev or_text : Option String → Option String → Option String
or_text x y = if is_filled x then x else y

abbrev text_of : Option String → String
text_of none = ""
text_of (some s) = s

abbrev pub vault_id_of : ProviderVault → Option String
vault_id_of v = filled (or_text v.id v.vault_account_id)

abbrev pub vault_name_of : ProviderVault → String
vault_name_of v = text_of (or_text v.name v.account_name)

-- The type by the name, in upper case.
unfoldable pub type_of_name : String → VaultType
type_of_name name =
    if mentions name "HOT"
    then VaultType.hot
    else if mentions name "WARM"
    then VaultType.warm
    else if mentions name "COLD"
    then VaultType.cold
    else if mentions name "GAS" || (mentions name "FEE" || mentions name "OPERATIONAL")
    then VaultType.operational
    else VaultType.regular

-- `synced`, `skipped` and the vaults without an id.
pub record SyncCounts : Type 0 where
  pub synced : ℕ
  pub skipped : ℕ
  pub errors : List ProviderVault

abbrev pub none_synced : SyncCounts
none_synced = record { synced = 0; skipped = 0; errors = [] }

abbrev pub add_synced : ℕ → String → ProviderVault → Action Done
add_synced id provider_vault_id v =
    add_vault (
      plain_vault id provider_vault_id (vault_name_of v) (type_of_name (vault_name_of v)) false
        none)

-- One pass of the loop; the counts of the rest come after it.
abbrev pub sync_found :
    ℕ → String → ProviderVault → Option Vault → Action SyncCounts → Action SyncCounts
sync_found id i v (some existing) rest = do
  counts ← rest
  pure (record counts { skipped = counts.skipped + 1 })
sync_found id i v none rest = do
  add_synced id i v
  counts ← rest
  pure (record counts { synced = counts.synced + 1 })

abbrev pub sync_one : ℕ → ProviderVault → Option String → Action SyncCounts → Action SyncCounts
sync_one id v none rest = do counts ← rest; pure (record counts { errors = v ∷ counts.errors })
sync_one id v (some i) rest = do
  rows ← gets (λ db. select (λ (u : Vault). text_eq u.provider_vault_id i) db.vaults)
  existing ← scalar_one_or_none rows
  sync_found id i v existing rest

unfoldable pub sync_each : Custody → ℕ → List ProviderVault → Action SyncCounts
unfolding type_of_name
sync_each c k [] = pure none_synced
sync_each c k (v ∷ vs) = sync_one (c.new_id k) v (vault_id_of v) (sync_each c (k + 1) vs)

pub record SyncResponse : Type 0 where
  pub fireblocks_vaults : ℕ
  pub synced : ℕ
  pub skipped : ℕ
  pub errors : List ProviderVault

-- The first ten errors are shown.
unfoldable pub sync_vaults_from_fireblocks : Custody → Action SyncResponse
unfolding sync_each
sync_vaults_from_fireblocks c = do
  fb_vaults ← replied (c.get_vaults none)
  counts ← sync_each c 0 fb_vaults
  commit
  pure (record {
    fireblocks_vaults = length fb_vaults;
    synced = counts.synced;
    skipped = counts.skipped;
    errors = take 10 counts.errors;
  })

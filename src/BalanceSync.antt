-- ===== src/BalanceSync.antt =====
-- app/services/balance_sync.py: the balances of the treasury's wallets are set to what the provider
-- reports; a pass over the transfers that wait for a balance follows.
pub mod Waiting
pub mod Publishing
use custody_service.Common.{
  ℕ, ◌+◌, ◌==◌, String, Bool, true, false, ◌&&◌, ◌||◌, Option, none, some, List, [], ◌∷◌, ℤ, eqb_ℤ,
  select, text_eq, is_filled, if◌then◌else◌, update_where,
}
use custody_service.Models.{Db, Vault, VaultType, Wallet, Asset, get_asset}
use custody_service.Custody.{Reply, answer, failure, filled}
use custody_service.Fireblocks.Assets.{FbAsset}
use custody_service.Fireblocks.Resolver.{resolve, look_up}
use custody_service.Outside.{Outside}
use custody_service.Session.{Action, pure, gets, modify, except, commit, ◌>>=◌, ◌>>◌}
use custody_service.BalanceSync.Waiting.{
  _process_pending_queue_after_sync, resolve_fireblocks_asset,
}

-- An entry of the provider's `assets`: its id, and the text of `total`.
pub record ReportedBalance : Type 0 where
  pub id : String
  pub total : Option String

-- `stats`, with `pending_processed`.
pub record SyncStats : Type 0 where
  pub vaults_synced : ℕ
  pub wallets_synced : ℕ
  pub wallets_updated : ℕ
  pub errors : ℕ
  pub pending_processed : ℕ

abbrev pub no_stats : SyncStats
no_stats = record {
  vaults_synced = 0;
  wallets_synced = 0;
  wallets_updated = 0;
  errors = 0;
  pending_processed = 0;
}

-- `vault_type.in_(["hot", "warm", "cold"])`
abbrev pub is_treasury_type : VaultType → Bool
is_treasury_type VaultType.hot = true
is_treasury_type VaultType.warm = true
is_treasury_type VaultType.cold = true
is_treasury_type _ = false

abbrev pub treasury_vaults : Db → List Vault
treasury_vaults db = select (λ (v : Vault). is_treasury_type v.vault_type && v.is_active) db.vaults

-- A `dict` keeps the place of a key that is there.
unfoldable pub put_balance : String → ℤ → List (String × ℤ) → List (String × ℤ)
put_balance i n [] = (i, n) ∷ []
put_balance i n (e ∷ es) =
    let rest = put_balance i n es in if text_eq e.0 i then (i, n) ∷ es else e ∷ rest

-- `fb_balances`, `none` where `Decimal` raises.
unfoldable pub balances_of :
    (String → Option ℤ) → List ReportedBalance → List (String × ℤ) → Option (List (String × ℤ))
unfolding put_balance
balances_of decimal [] balances = some balances
balances_of decimal (a ∷ assets) balances = elim (filled a.total) [
  | none ↦ balances_of decimal assets balances
  | some s ↦ elim (decimal s) [
    | none ↦ none
    | some n ↦ balances_of decimal assets (put_balance a.id n balances)
  ]
]

-- The id of a wallet's asset, `none` without one, with an empty one, and where the resolver raises.
abbrev pub wallet_key : Outside → Db → Wallet → Option String
wallet_key o db w = elim (get_asset db w.asset_id) [
  | none ↦ none
  | some a ↦ elim (resolve_fireblocks_asset o a) [ none ↦ none | some i ↦ filled i ]
]

abbrev pub is_key : Option String → String → Bool
is_key none i = false
is_key (some k) i = text_eq k i

-- `fb_to_wallet.get(fb_asset_id)`: of two wallets with one id the later one is kept.
unfoldable pub wallet_for : Outside → Db → List Wallet → String → Option Wallet
wallet_for o db [] i = none
wallet_for o db (w ∷ ws) i = elim (wallet_for o db ws i) [
  | none ↦ if is_key (wallet_key o db w) i then some w else none
  | some later ↦ some later
]

abbrev pub with_balance : ℤ → Wallet → Wallet
with_balance n w = record w { balance = n }

-- One balance that the provider reports, with the wallets of the vault.
abbrev pub sync_wallet : Option Wallet → ℤ → SyncStats → Db → SyncStats × Db
sync_wallet none n stats db = (stats, db)
sync_wallet (some w) n stats db =
    if eqb_ℤ n w.balance
    then (record stats { wallets_synced = stats.wallets_synced + 1 }, db)
    else (
      record stats {
        wallets_synced = stats.wallets_synced + 1;
        wallets_updated = stats.wallets_updated + 1;
      },
      record db {
        wallets = update_where (λ (u : Wallet). u.id == w.id) (with_balance n) db.wallets;
      },
    )

unfoldable pub sync_wallets :
    Outside → List Wallet → List (String × ℤ) → SyncStats → Db → SyncStats × Db
unfolding wallet_for
sync_wallets o ws [] stats db = (stats, db)
sync_wallets o ws (b ∷ bs) stats db =
    let (stats', db') = sync_wallet (wallet_for o db ws b.0) b.1 stats db in
    sync_wallets o ws bs stats' db'

abbrev one_error : SyncStats → SyncStats
one_error stats = record stats { errors = stats.errors + 1 }

abbrev one_vault : SyncStats → SyncStats
one_vault stats = record stats { vaults_synced = stats.vaults_synced + 1 }

abbrev pub sync_balances :
    Outside → List Wallet → Option (List (String × ℤ)) → SyncStats → Db → SyncStats × Db
sync_balances o ws none stats db = (one_error stats, db)
sync_balances o ws (some bs) stats db = sync_wallets o ws bs stats db

-- What the provider answers for a vault: its assets, `none` where the answer has none.
abbrev pub sync_reply :
    Outside → List Wallet → Reply (Option (List ReportedBalance)) → SyncStats → Db → SyncStats × Db
sync_reply o ws (failure message) stats db = (one_error stats, db)
sync_reply o ws (answer none) stats db = (stats, db)
sync_reply o ws (answer (some assets)) stats db =
    sync_balances o ws (balances_of o.decimal assets []) (one_vault stats) db

-- One vault, unless it has no id at the provider.
abbrev pub sync_vault :
    Outside
    → (String → Reply (Option (List ReportedBalance)))
    → Vault
    → SyncStats
    → Db
    → SyncStats × Db
sync_vault o get_vault_balance v stats db =
    if text_eq v.provider_vault_id ""
    then (stats, db)
    else sync_reply o (select (λ (w : Wallet). w.vault_id == v.id) db.wallets)
        (get_vault_balance v.provider_vault_id) stats db

unfoldable pub sync_vaults :
    Outside
    → (String → Reply (Option (List ReportedBalance)))
    → List Vault
    → SyncStats
    → Db
    → SyncStats × Db
unfolding sync_wallets balances_of
sync_vaults o get_vault_balance [] stats db = (stats, db)
sync_vaults o get_vault_balance (v ∷ vs) stats db =
    let (stats', db') = sync_vault o get_vault_balance v stats db in
    sync_vaults o get_vault_balance vs stats' db'

-- An exception of the pass reaches the handler around the whole, after the balances' commit.
abbrev pub after_pass : SyncStats → Action SyncStats → Action SyncStats
after_pass stats pass = except pass (λ e. pure (one_error stats))

unfoldable pub sync_treasury_balances :
    Outside → (String → Reply (Option (List ReportedBalance))) → Action SyncStats
unfolding sync_vaults
sync_treasury_balances o get_vault_balance = do
  vaults ← gets treasury_vaults
  synced ← gets (sync_vaults o get_vault_balance vaults no_stats)
  modify (λ _. synced.1)
  commit
  after_pass synced.0 (
      _process_pending_queue_after_sync o >>= λ processed.
      pure (record synced.0 { pending_processed = processed }))

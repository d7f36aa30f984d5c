-- ===== src/AssetSync.antt =====
-- app/services/asset_sync.py, `refresh_asset_cache_with_lock`: one process asks the provider for its
-- assets, under the lock. No provider of app/services/custody/providers has an `_asset_cache`, so
-- that the reset of that attribute is never reached.
pub mod Answers
use custody_service.Common.{ℕ, String, Bool, false, Option, none, some, List, length, if◌then◌else◌}
use custody_service.Fireblocks.Assets.{FbAsset}
use custody_service.Locks.{Redis, DistributedLock, Connection, get_redis, aenter, aexit}

-- `status`, with the timestamp and `assets_count`.
pub data Refresh : Type 0 where
  skipped failed : Refresh
  completed : ℕ → ℕ → Refresh

-- The answer, `_last_sync_time`, and the server's keys afterwards.
pub record Refreshed (S : Type 0) : Type 0 where
  pub answer : Refresh
  pub last_sync_time : Option ℕ
  pub store : S

abbrev pub asset_sync_lock : String
asset_sync_lock = "lock:custody:asset-sync"

abbrev pub new_lock : DistributedLock
new_lock = record { name = asset_sync_lock; ttl = 300; has_redis = false; acquired = false }

-- What the provider's answer makes of it, and the time.
abbrev pub fetched : ℕ → Option ℕ → Option (List FbAsset) → Refresh × Option ℕ
fetched now last none = (failed, last)
fetched now last (some assets) = (completed now (length assets), some now)

-- The lock is left whatever the provider does.
unfoldable pub refresh_asset_cache_with_lock :
    {S : Type 0} → Redis S → Bool → ℕ → Option (List FbAsset) → Option ℕ → S → Refreshed S
refresh_asset_cache_with_lock server has_client now supported last s =
    let (l, entered) = aenter server has_client new_lock s in
    let (answer, last') = if l.acquired then fetched now last supported else (skipped, last) in
    let (_, left) = aexit server l entered in
    record { answer = answer; last_sync_time = last'; store = left }

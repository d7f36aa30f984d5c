-- ===== src/Locks.antt =====
-- app/services/redis_client.py: the Redis client and `DistributedLock`, and processes that enter and
-- leave the lock in any order (app/services/asset_sync.py).
pub mod Entering
pub mod Exclusion
pub mod Progress
pub mod Expiry
use custody_service.Common.{
  ℕ, zero, suc, ◌+◌, ◌==◌, String, Bool, true, false, ◌&&◌, Option, none, some, List, [], ◌∷◌,
  if◌then◌else◌,
}
use custody_service.Storage.{backoff}

-- The server's commands on one database: `SET name "1" NX EX ttl`, with `none` where the client
-- raises, `DEL name`, and the end of a key's time to live.
pub record Redis (Store : Type 0) : Type 0 where
  pub set_nx : String → ℕ → Store → Store × Option Bool
  pub delete : String → Store → Store
  pub expire : String → Store → Store

-- `_redis_client`, whether it is set, and the tenths of a second that `init_redis` has slept.
pub record Connection : Type 0 where
  pub has_client : Bool
  pub slept : ℕ

-- The client is set before it is pinged.
abbrev pub with_client : Connection → Connection
with_client c = record c { has_client = true }

abbrev pub pause : ℕ → Connection → Connection
pause attempt c = record c { slept = c.slept + backoff attempt }

abbrev max_retries : ℕ
max_retries = 3

-- `pings attempt`: whether the attempt's ping is answered.
unfoldable pub init_attempts : (ℕ → Bool) → ℕ → ℕ → Connection → Connection
init_attempts pings zero attempt c = c
init_attempts pings (suc left) attempt c =
    let again = init_attempts pings left (suc attempt) (pause attempt (with_client c)) in
    if pings attempt then with_client c else if attempt == 2 then with_client c else again

unfoldable pub init_redis : (ℕ → Bool) → Connection → Connection
unfolding init_attempts
init_redis pings c = if c.has_client then c else init_attempts pings max_retries 0 c

unfoldable pub get_redis : (ℕ → Bool) → Connection → Connection
unfolding init_redis
get_redis pings c = if c.has_client then c else init_redis pings c

-- `name`, `ttl`, whether `_redis` is set, and `_acquired`.
pub record DistributedLock : Type 0 where
  pub name : String
  pub ttl : ℕ
  pub has_redis : Bool
  pub acquired : Bool

-- An error lets the body run.
abbrev pub granted : Option Bool → Bool
granted none = true
granted (some b) = b

-- `async with DistributedLock(…) as acquired`: the answer is the lock's `acquired`.
unfoldable pub aenter : {S : Type 0} → Redis S → Bool → DistributedLock → S → DistributedLock × S
aenter server false l s = (record l { has_redis = false; acquired = true }, s)
aenter server true l s =
    let (s', reply) = server.set_nx l.name l.ttl s in
    (record l { has_redis = true; acquired = granted reply }, s')

-- What the body raises does not matter here.
unfoldable pub aexit : {S : Type 0} → Redis S → DistributedLock → S → DistributedLock × S
aexit server l s =
    (record l { acquired = false }, if l.acquired && l.has_redis then server.delete l.name s else s)

-- The processes, numbered, each with its client and its lock object, and the server's keys.
pub record Processes (S : Type 0) : Type 0 where
  pub connections : ℕ → Connection
  pub locks : ℕ → DistributedLock
  pub store : S

-- What happens next: a process that is outside enters, with the answers to its client's pings, or
-- one leaves, or the key of a name runs out of time.
pub data LockEvent : Type 0 where
  enters : ℕ → (ℕ → Bool) → LockEvent
  leaves : ℕ → LockEvent
  expires : String → LockEvent

abbrev pub put : {A : Type 0} → ℕ → A → (ℕ → A) → ℕ → A
put i a f k = if k == i then a else f k

abbrev pub entering : {S : Type 0} → Redis S → ℕ → (ℕ → Bool) → Processes S → Processes S
entering server i pings w =
    let c = get_redis pings (w.connections i) in
    let (l, s) = aenter server c.has_client (w.locks i) w.store in
    record { connections = put i c w.connections; locks = put i l w.locks; store = s }

-- A process inside does not enter again.
unfoldable pub step : {S : Type 0} → Redis S → LockEvent → Processes S → Processes S
step server (enters i pings) w = if (w.locks i).acquired then w else entering server i pings w
step server (leaves i) w =
    let (l, s) = aexit server (w.locks i) w.store in record w { locks = put i l w.locks; store = s }
step server (expires name) w = record w { store = server.expire name w.store }

unfoldable pub run : {S : Type 0} → Redis S → List LockEvent → Processes S → Processes S
unfolding step
run server [] w = w
run server (e ∷ es) w = run server es (step server e w)

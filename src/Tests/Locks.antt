-- ===== src/Tests/Locks.antt =====
-- A server that keeps one key, and three processes.
use custody_service.Common.{
  ltb, ◌≡◌, inl, refl, sym, subst, arith, Bool, true, false, Option, none, some, ◌⊎◌, List, [], ◌∷◌,
}
use custody_service.Locks.{
  Redis, Processes, LockEvent, enters, leaves, expires, step, run, aenter, aexit, get_redis,
  init_redis, init_attempts,
}
use custody_service.Locks.Entering.{IsLocking, IsInside}
use custody_service.Locks.Exclusion.{IsExclusive, IsIdle, processes_exclude}
use custody_service.Locks.Progress.{processes_enter}
use custody_service.Locks.Expiry.{leaving_frees_other}
use custody_service.AssetSync.{refresh_asset_cache_with_lock, skipped, failed}
use custody_service.AssetSync.Answers.{refresh-Answers}

abbrev set_key : Bool → Bool × Option Bool
set_key false = (true, some true)
set_key true = (true, some false)

abbrev server : Redis Bool
server = record { set_nx = λ _ _ s. set_key s; delete = λ _ _. false; expire = λ _ _. false }

abbrev locking : IsLocking server "lock:custody:asset-sync"
locking = record {
  has_key = λ s. s;
  sets = λ ttl s h.
      subst (λ b. ((set_key b).0 ≡ true) × ((set_key b).1 ≡ some true)) (sym h) (refl, refl);
  leaves_alone = λ ttl s h.
      subst (λ b. ((set_key b).0 ≡ true) × ((set_key b).1 ≡ some false)) (sym h) (refl, refl);
  deletes = λ _. refl;
  runs_out = λ _. refl;
}

abbrev outside : Processes Bool
outside = record {
  connections = λ _. record { has_client = false; slept = 0 };
  locks = λ _. record {
    name = "lock:custody:asset-sync";
    ttl = 300;
    has_redis = false;
    acquired = false;
  };
  store = false;
}

idle : IsIdle server "lock:custody:asset-sync" locking outside
idle = record { named = λ _. refl; outside = λ _. refl; free = refl }

-- The third ping of the first process is answered; the second process comes too early, and again.
abbrev timely : List LockEvent
timely = enters 0 (λ n. ltb 1 n) ∷ enters 1 (λ _. true) ∷ leaves 0 ∷ enters 1 (λ _. true) ∷ []

processes_exclude_example :
    IsExclusive server "lock:custody:asset-sync" locking (run server timely outside)
processes_exclude_example =
    processes_exclude server "lock:custody:asset-sync" locking timely outside
      (tt, (tt, (tt, (tt, tt)))) idle

second-IsInside : IsInside (run server timely outside) 1
unfolding run step aenter aexit get_redis init_redis init_attempts
second-IsInside = refl

processes_enter_example :
    IsInside
      (step server (enters 2 (λ _. true)) (step server (leaves 1) (run server timely outside)))
      2
processes_enter_example =
    processes_enter server "lock:custody:asset-sync" locking timely outside 1 2 (λ _. true)
      (tt, (tt, (tt, (tt, tt)))) idle (inl second-IsInside)

-- The first process's key runs out of time, and the second enters.
abbrev late : List LockEvent
late = enters 0 (λ _. true) ∷ expires "lock:custody:asset-sync" ∷ enters 1 (λ _. true) ∷ []

leaving_frees_other_example :
    IsInside (step server (leaves 0) (run server late outside)) 1
    × (IsInside
          (step server (enters 2 (λ _. true)) (step server (leaves 0) (run server late outside)))
          1
        × IsInside
            (step server (enters 2 (λ _. true)) (step server (leaves 0) (run server late outside)))
            2)
unfolding run step aenter aexit get_redis init_redis init_attempts
leaving_frees_other_example =
    leaving_frees_other server "lock:custody:asset-sync" locking (run server late outside) 0 1 2
      (λ _. true) refl refl (λ e. ground arith) (λ e. ground arith) (λ e. ground arith) refl refl
      refl refl

-- The provider does not answer; the key is removed all the same.
refresh-Answers_example :
    let r = refresh_asset_cache_with_lock server true 7 none (some 5) false in
    ((false ≡ false) × ((r.answer ≡ failed) × ((r.last_sync_time ≡ some 5) × (r.store ≡ false))))
    ⊎ ((false ≡ true) × ((r.answer ≡ skipped) × ((r.last_sync_time ≡ some 5) × (r.store ≡ true))))
refresh-Answers_example = refresh-Answers server locking 7 none (some 5) false

-- ===== src/Locks/Expiry.antt =====
-- What a lock that outlived its key does when it leaves.
use custody_service.Common.{ℕ, ◌≡◌, ◌≢◌, sym, ap, ◌∙◌, String, Bool, true, false}
use custody_service.Locks.{Redis, DistributedLock, aexit, Processes, enters, leaves, step}
use custody_service.Locks.Entering.{
  IsLocking, put-other, IsInside, entered-others, entered-IsInside, deleted,
}

module _ {S : Type 0} (server : Redis S) (name : String) (k : IsLocking server name) where
  -- Three processes share the lock's name and the server answers. When two of them are inside at
  -- once, as after the time of the first one's key has run out, and the first leaves, it deletes
  -- the key of the second: the second is still inside, and the third, which is outside, gets inside
  -- too when it enters.
  pub leaving_frees_other :
      (w : Processes S) (i j m : ℕ) (pings : ℕ → Bool)
      → (w.locks i).name ≡ name
      → (w.locks m).name ≡ name
      → j ≢ i
      → m ≢ i
      → m ≢ j
      → IsInside w i
      → (w.locks i).has_redis ≡ true
      → IsInside w j
      → (w.locks m).acquired ≡ false
      → IsInside (step server (leaves i) w) j
        × (IsInside (step server (enters m pings) (step server (leaves i) w)) j
            × IsInside (step server (enters m pings) (step server (leaves i) w)) m)
  unfolding step
  leaving_frees_other w i j m pings ni nm ji mi mj inside r other out =
      let gone = step server (leaves i) w in
      let l = (aexit server (w.locks i) w.store).0 in
      let still = ap (λ (x : DistributedLock). x.acquired) (put-other i l w.locks j ji) ∙ other in
      (
        still,
        (
          entered-others server gone m pings j (λ e. mj (sym e)) still,
          entered-IsInside server name k gone m pings
              (ap (λ (x : DistributedLock). x.name) (put-other i l w.locks m mi) ∙ nm)
              (ap (λ (x : DistributedLock). x.acquired) (put-other i l w.locks m mi) ∙ out)
              (deleted server name k w i ni inside r),
        ),
      )

-- ===== src/Locks/Progress.antt =====
-- Processes that share one name: who may enter next.
use custody_service.Common.{
  ℕ, ◌≡◌, ◌⊎◌, inl, inr, ap, ◌∙◌, String, Bool, ◌&&◌, Bool-cases, false, List, All, if◌then◌else◌,
  arith,
}
use custody_service.Locks.{Redis, aexit, Processes, LockEvent, enters, leaves, step, run}
use custody_service.Locks.Entering.{IsLocking, IsInside, entered-IsInside, deleted}
use custody_service.Locks.Exclusion.{
  IsExclusive, IsTimely, IsIdle, free-outside, leaving-IsExclusive, run-IsExclusive,
  idle-IsExclusive,
}

module _ {S : Type 0} (server : Redis S) (name : String) (k : IsLocking server name) where
  nobody-free :
      (w : Processes S)
      → IsExclusive server name k w
      → ((i : ℕ) → (w.locks i).acquired ≡ false)
      → k.has_key w.store ≡ false
  nobody-free w h none_in = elim (Bool-cases (k.has_key w.store)) [
    | inl q ↦ let (i, p) = h.owned q in ground (arith, none_in i)
    | inr q ↦ q
  ]

  unlocked :
      (w : Processes S) (i : ℕ)
      → IsExclusive server name k w
      → (w.locks i).acquired ≡ false
      → k.has_key w.store ≡ false
      → k.has_key (step server (leaves i) w).store ≡ false
  unfolding step aexit
  unlocked w i h out free =
      ap k.has_key (
        ap
          (λ b.
            if b && (w.locks i).has_redis then server.delete (w.locks i).name w.store else w.store)
          out)
      ∙ free

  left_free :
      (w : Processes S) (i : ℕ)
      → IsExclusive server name k w
      → IsInside w i ⊎ ((p : ℕ) → (w.locks p).acquired ≡ false)
      → k.has_key (step server (leaves i) w).store ≡ false
  unfolding step
  left_free w i h (inl q) = deleted server name k w i (h.named i) q (h.connected i q)
  left_free w i h (inr none_in) = unlocked w i h (none_in i) (nobody-free w h none_in)

  -- Processes that share a lock's name start outside, with no key on a server that answers, and
  -- enter and leave in any order while no key runs out of time. If then the process i is inside, or
  -- none is, and i leaves, whichever process enters next gets inside.
  pub processes_enter :
      (es : List LockEvent) (w : Processes S) (i j : ℕ) (pings : ℕ → Bool)
      → All IsTimely es
      → IsIdle server name k w
      → IsInside (run server es w) i ⊎ ((p : ℕ) → ((run server es w).locks p).acquired ≡ false)
      → IsInside (step server (enters j pings) (step server (leaves i) (run server es w))) j
  processes_enter es w i j pings t h inside =
      let v = run server es w in
      let now = run-IsExclusive server name k es w t (idle-IsExclusive server name k w h) in
      let gone = leaving-IsExclusive server name k v i now in
      let free = left_free v i now inside in
      entered-IsInside server name k (step server (leaves i) v) j pings (gone.named j)
        (free-outside server name k (step server (leaves i) v) gone free j) free

-- ===== src/Locks/Exclusion.antt =====
-- Processes that share one name: at most one is inside.
use custody_service.Common.{
  ℕ, ◌≡◌, inl, inr, refl, sym, ap, ◌∙◌, subst, String, Bool, ◌&&◌, Bool-cases, true, false, List,
  [], ◌∷◌, All, if◌then◌else◌, arith,
}
use custody_service.Locks.{
  Redis, Connection, get_redis, DistributedLock, aenter, aexit, Processes, LockEvent, enters,
  leaves, expires, put, entering, step, run,
}
use custody_service.Locks.Entering.{
  IsLocking, get_redis-client, enter-free, enter-held, put-same, put-cases, IsInside, deleted,
}

-- No key runs out of time.
abbrev pub IsTimely : LockEvent → Type 0
IsTimely (enters i pings) = Unit
IsTimely (leaves i) = Unit
IsTimely (expires n) = ⊥

module _ {S : Type 0} (server : Redis S) (name : String) (k : IsLocking server name) where
  -- At most one process is inside, and the key is there exactly while one is.
  pub record IsExclusive (w : Processes S) : Type 0 where
    pub named : (i : ℕ) → (w.locks i).name ≡ name
    pub one : (i j : ℕ) → IsInside w i → IsInside w j → i ≡ j
    pub connected : (i : ℕ) → IsInside w i → (w.locks i).has_redis ≡ true
    pub kept : (i : ℕ) → IsInside w i → k.has_key w.store ≡ true
    pub owned : k.has_key w.store ≡ true → (i : ℕ) × IsInside w i

  pub free-outside :
      (w : Processes S)
      → IsExclusive w
      → k.has_key w.store ≡ false
      → (j : ℕ) → (w.locks j).acquired ≡ false
  free-outside w h free j = elim (Bool-cases (w.locks j).acquired) [
    | inl q ↦ ground (arith, h.kept j q)
    | inr q ↦ q
  ]

  -- The process i gets inside a lock that is free.
  entered-IsExclusive :
      (w : Processes S) (c : ℕ → Connection) (i : ℕ) (l : DistributedLock) (s : S)
      → IsExclusive w
      → k.has_key w.store ≡ false
      → l.name ≡ name
      → l.has_redis ≡ true
      → l.acquired ≡ true
      → k.has_key s ≡ true
      → IsExclusive (record { connections = c; locks = put i l w.locks; store = s })
  entered-IsExclusive w c i l s h free n r a held =
      let outside = free-outside w h free in
      record {
        named = λ j. ground (arith, put-cases i l w.locks j, h.named j);
        one = λ j m p q.
            ground (arith, put-cases i l w.locks j, put-cases i l w.locks m, outside j, outside m);
        connected = λ j p. ground (arith, put-cases i l w.locks j, outside j);
        kept = λ _ _. held;
        owned = λ _. (i, ap (λ (x : DistributedLock). x.acquired) (put-same i l w.locks) ∙ a);
      }

  -- The process i stays outside.
  stayed-IsExclusive :
      (w : Processes S) (c : ℕ → Connection) (i : ℕ) (l : DistributedLock) (s : S)
      → IsExclusive w
      → (w.locks i).acquired ≡ false
      → l.name ≡ name
      → l.acquired ≡ false
      → k.has_key s ≡ k.has_key w.store
      → IsExclusive (record { connections = c; locks = put i l w.locks; store = s })
  stayed-IsExclusive w c i l s h out n a same = record {
    named = λ j. ground (arith, put-cases i l w.locks j, h.named j);
    one = λ j m p q. ground (arith, put-cases i l w.locks j, put-cases i l w.locks m, h.one j m);
    connected = λ j p. ground (arith, put-cases i l w.locks j, h.connected j);
    kept = λ j p. ground (arith, put-cases i l w.locks j, h.kept j);
    owned =
        λ p. let (j, q) = h.owned (sym same ∙ p) in (j, ground (arith, put-cases i l w.locks j));
  }

  -- The process i was the one inside, and leaves.
  left-IsExclusive :
      (w : Processes S) (c : ℕ → Connection) (i : ℕ) (l : DistributedLock) (s : S)
      → IsExclusive w
      → IsInside w i
      → l.name ≡ name
      → l.acquired ≡ false
      → k.has_key s ≡ false
      → IsExclusive (record { connections = c; locks = put i l w.locks; store = s })
  left-IsExclusive w c i l s h inside n a free = record {
    named = λ j. ground (arith, put-cases i l w.locks j, h.named j);
    one = λ j m p q. ground (arith, put-cases i l w.locks j, put-cases i l w.locks m, h.one j m);
    connected = λ j p. ground (arith, put-cases i l w.locks j, h.connected j);
    kept = λ j p. ground (arith, put-cases i l w.locks j, h.one i j inside);
    owned = λ p. ground arith;
  }

  entering-IsExclusive :
      (w : Processes S) (i : ℕ) (pings : ℕ → Bool)
      → IsExclusive w
      → (w.locks i).acquired ≡ false
      → IsExclusive (entering server i pings w)
  entering-IsExclusive w i pings h out =
      let c = get_redis pings (w.connections i) in
      let through : Bool → Processes S = λ b.
        let (l, s) = aenter server b (w.locks i) w.store in
        record { connections = put i c w.connections; locks = put i l w.locks; store = s } in
      subst (λ b. IsExclusive (through b)) (sym (get_redis-client pings (w.connections i)))
        (elim (Bool-cases (k.has_key w.store)) [
          | inl q ↦
              let (e, held) = enter-held server name k (w.locks i) w.store (h.named i) q in
              stayed-IsExclusive w _ i _ _ h out (ap (λ l. l.name) e ∙ h.named i)
                (ap (λ l. l.acquired) e) (held ∙ sym q)
          | inr q ↦
              let (e, held) = enter-free server name k (w.locks i) w.store (h.named i) q in
              entered-IsExclusive w _ i _ _ h q (ap (λ l. l.name) e ∙ h.named i)
                (ap (λ l. l.has_redis) e) (ap (λ l. l.acquired) e) held
        ])

  pub leaving-IsExclusive :
      (w : Processes S) (i : ℕ) → IsExclusive w → IsExclusive (step server (leaves i) w)
  unfolding step aexit
  leaving-IsExclusive w i h = elim (Bool-cases (w.locks i).acquired) [
    | inl q ↦
        left-IsExclusive w _ i _ _ h q (h.named i) refl
          (deleted server name k w i (h.named i) q (h.connected i q))
    | inr q ↦ stayed-IsExclusive w _ i _ _ h q (h.named i) refl (
        ap k.has_key (
          ap
            (λ b.
              if b && (w.locks i).has_redis
              then server.delete (w.locks i).name w.store
              else w.store)
            q))
  ]

  step-IsExclusive :
      (e : LockEvent) (w : Processes S) → IsTimely e → IsExclusive w → IsExclusive (step server e w)
  unfolding step
  step-IsExclusive (enters i pings) w t h = elim (Bool-cases (w.locks i).acquired) [
    | inl q ↦ subst (λ b. IsExclusive (if b then w else entering server i pings w)) (sym q) h
    | inr q ↦
        subst (λ b. IsExclusive (if b then w else entering server i pings w)) (sym q)
          (entering-IsExclusive w i pings h q)
  ]
  step-IsExclusive (leaves i) w t h = leaving-IsExclusive w i h
  step-IsExclusive (expires n) w t h = absurd t

  pub run-IsExclusive :
      (es : List LockEvent) (w : Processes S)
      → All IsTimely es
      → IsExclusive w
      → IsExclusive (run server es w)
  unfolding run
  run-IsExclusive [] w t h = h
  run-IsExclusive (e ∷ es) w t h =
      run-IsExclusive es (step server e w) t.1 (step-IsExclusive e w t.0 h)

  -- All processes name the lock alike, none is inside, and the key is not there.
  pub record IsIdle (w : Processes S) : Type 0 where
    pub named : (i : ℕ) → (w.locks i).name ≡ name
    pub outside : (i : ℕ) → (w.locks i).acquired ≡ false
    pub free : k.has_key w.store ≡ false

  pub idle-IsExclusive : (w : Processes S) → IsIdle w → IsExclusive w
  idle-IsExclusive w h = record {
    named = h.named;
    one = λ i j p q. ground (arith, h.outside i);
    connected = λ i p. ground (arith, h.outside i);
    kept = λ i p. ground (arith, h.outside i);
    owned = λ p. ground (arith, h.free);
  }

  -- Processes that share a lock's name start outside, with no key on a server that answers, and
  -- enter and leave in any order, whatever their clients' pings say. While no key runs out of time,
  -- at most one of them is inside at each moment, and the key is there if and only if one is.
  pub processes_exclude :
      (es : List LockEvent) (w : Processes S)
      → All IsTimely es
      → IsIdle w
      → IsExclusive (run server es w)
  processes_exclude es w t h = run-IsExclusive es w t (idle-IsExclusive w h)

-- ===== src/Locks/Entering.antt =====
-- What a server that answers does for one process that enters.
use custody_service.Common.{
  ℕ, zero, suc, ◌==◌, ==_iff, ==_refl, ◌≡◌, ◌≢◌, ◌⊎◌, inl, inr, refl, sym, ap, ◌∙◌, subst, String,
  Bool, Bool-cases, true, false, some, if◌then◌else◌, arith,
}
use custody_service.Locks.{
  Redis, Connection, init_attempts, init_redis, get_redis, DistributedLock, aenter, aexit,
  Processes, enters, granted, pause, with_client, put, entering, step,
}

-- Redis, while it answers: a key that is absent is set, one that is there is left, and a deletion or
-- the end of its time removes it.
pub record IsLocking {S : Type 0} (server : Redis S) (name : String) : Type 0 where
  pub has_key : S → Bool
  pub sets :
      (ttl : ℕ)
      → (s : S) → has_key s ≡ false
      → (has_key (server.set_nx name ttl s).0 ≡ true) × ((server.set_nx name ttl s).1 ≡ some true)
  pub leaves_alone :
      (ttl : ℕ)
      → (s : S) → has_key s ≡ true
      → (has_key (server.set_nx name ttl s).0 ≡ true) × ((server.set_nx name ttl s).1 ≡ some false)
  pub deletes : (s : S) → has_key (server.delete name s) ≡ false
  pub runs_out : (s : S) → has_key (server.expire name s) ≡ false

init_attempts-client :
    (pings : ℕ → Bool) (n a : ℕ) (c : Connection)
    → c.has_client ≡ true
    → (init_attempts pings n a c).has_client ≡ true
unfolding init_attempts
init_attempts-client pings zero a c h = h
init_attempts-client pings (suc n) a c h =
    let again = init_attempts-client pings n (suc a) (pause a (with_client c)) refl in ground arith

pub get_redis-client : (pings : ℕ → Bool) (c : Connection) → (get_redis pings c).has_client ≡ true
unfolding get_redis init_redis init_attempts
get_redis-client pings c =
    let again = init_attempts-client pings 2 1 (pause 0 (with_client c)) refl in ground arith

-- A process outside that enters, by what the server has.
pub enter-free :
    {S : Type 0} (server : Redis S) (name : String) (k : IsLocking server name)
    (l : DistributedLock) (s : S)
    → l.name ≡ name
    → k.has_key s ≡ false
    → ((aenter server true l s).0 ≡ record l { has_redis = true; acquired = true })
      × (k.has_key (aenter server true l s).1 ≡ true)
unfolding aenter
enter-free server name k l s e h = (
  ap (λ r. record l { has_redis = true; acquired = granted r })
      (ap (λ n. (server.set_nx n l.ttl s).1) e ∙ (k.sets l.ttl s h).1),
  ap (λ n. k.has_key (server.set_nx n l.ttl s).0) e ∙ (k.sets l.ttl s h).0,
)

pub enter-held :
    {S : Type 0} (server : Redis S) (name : String) (k : IsLocking server name)
    (l : DistributedLock) (s : S)
    → l.name ≡ name
    → k.has_key s ≡ true
    → ((aenter server true l s).0 ≡ record l { has_redis = true; acquired = false })
      × (k.has_key (aenter server true l s).1 ≡ true)
unfolding aenter
enter-held server name k l s e h = (
  ap (λ r. record l { has_redis = true; acquired = granted r })
      (ap (λ n. (server.set_nx n l.ttl s).1) e ∙ (k.leaves_alone l.ttl s h).1),
  ap (λ n. k.has_key (server.set_nx n l.ttl s).0) e ∙ (k.leaves_alone l.ttl s h).0,
)

pub put-same : {A : Type 0} (i : ℕ) (a : A) (f : ℕ → A) → put i a f i ≡ a
put-same i a f = ground (arith, ==_refl i)

pub put-cases :
    {A : Type 0} (i : ℕ) (a : A) (f : ℕ → A) (j : ℕ)
    → ((j ≡ i) × (put i a f j ≡ a)) ⊎ ((j ≢ i) × (put i a f j ≡ f j))
put-cases i a f j = elim (Bool-cases (j == i)) [
  | inl e ↦ inl ((==_iff j i).0 e, ap (λ b. if b then a else f j) e)
  | inr e ↦ inr ((λ q. ground (arith, (==_iff j i).1 q)), ap (λ b. if b then a else f j) e)
]

pub put-other : {A : Type 0} (i : ℕ) (a : A) (f : ℕ → A) (j : ℕ) → j ≢ i → put i a f j ≡ f j
put-other i a f j h = elim (put-cases i a f j) [ inl c ↦ absurd (h c.0) | inr c ↦ c.1 ]

abbrev pub IsInside : {S : Type 0} → Processes S → ℕ → Type 0
IsInside w i = (w.locks i).acquired ≡ true

pub entered-others :
    {S : Type 0} (server : Redis S) (w : Processes S) (m : ℕ) (pings : ℕ → Bool) (j : ℕ)
    → j ≢ m
    → IsInside w j
    → IsInside (step server (enters m pings) w) j
unfolding step
entered-others server w m pings j h q = elim (Bool-cases (w.locks m).acquired) [
  | inl p ↦ subst (λ b. IsInside (if b then w else entering server m pings w) j) (sym p) q
  | inr p ↦
      subst (λ b. IsInside (if b then w else entering server m pings w) j) (sym p)
        (ap (λ (x : DistributedLock). x.acquired) (put-other m _ w.locks j h) ∙ q)
]

module _ {S : Type 0} (server : Redis S) (name : String) (k : IsLocking server name) where
  entering-IsInside :
      (w : Processes S) (i : ℕ) (pings : ℕ → Bool)
      → (w.locks i).name ≡ name
      → k.has_key w.store ≡ false
      → IsInside (entering server i pings w) i
  entering-IsInside w i pings n free =
      ap (λ (x : DistributedLock). x.acquired) (put-same i _ w.locks)
      ∙ ap (λ b. (aenter server b (w.locks i) w.store).0.acquired)
          (get_redis-client pings (w.connections i))
      ∙ ap (λ (x : DistributedLock). x.acquired)
          (enter-free server name k (w.locks i) w.store n free).0

  pub entered-IsInside :
      (w : Processes S) (i : ℕ) (pings : ℕ → Bool)
      → (w.locks i).name ≡ name
      → (w.locks i).acquired ≡ false
      → k.has_key w.store ≡ false
      → IsInside (step server (enters i pings) w) i
  unfolding step
  entered-IsInside w i pings n out free =
      subst (λ b. IsInside (if b then w else entering server i pings w) i) (sym out)
        (entering-IsInside w i pings n free)

  pub deleted :
      (w : Processes S) (i : ℕ)
      → (w.locks i).name ≡ name
      → IsInside w i
      → (w.locks i).has_redis ≡ true
      → k.has_key (aexit server (w.locks i) w.store).1 ≡ false
  unfolding aexit
  deleted w i n q r =
      ground (arith, r, ap (λ m. k.has_key (server.delete m w.store)) n ∙ k.deletes w.store)

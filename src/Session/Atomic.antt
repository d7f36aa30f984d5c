-- ===== src/Session/Atomic.antt =====
-- Actions that commit nothing, and how they are put together.
use custody_service.Common.{
  ◌≡◌, refl, ◌∙◌, Bool, true, false, Option, none, some, List, [], ◌∷◌, if◌then◌else◌,
}
use custody_service.Models.{Db}
use custody_service.Session.{
  World, Result, Action, Error, Event, ok, err, pure, gets, modify, send, raise, except, or_raise,
  scalar_one_or_none, ◌>>=◌, then_run, handled,
}

-- The committed tables are as before, whatever the action ends with.
unfoldable pub IsUncommitted : {A : Type 0} → Action A → Type 0
IsUncommitted m = (w : World) → (m w).1.committed ≡ w.committed

module _ {A B : Type 0} (m : Action A) (f : A → Action B) where
  then_run-committed :
      (r : Result A) (v w : World)
      → v.committed ≡ w.committed
      → ((a : A) → (u : World) → (f a u).1.committed ≡ u.committed)
      → (then_run r f v).1.committed ≡ w.committed
  then_run-committed (ok a) v w e k = k a v ∙ e
  then_run-committed (err x) v w e k = e

  pub bind-IsUncommitted :
      IsUncommitted m → ((a : A) → IsUncommitted (f a)) → IsUncommitted (m >>= f)
  unfolding IsUncommitted
  bind-IsUncommitted h k w = then_run-committed (m w).0 (m w).1 w (h w) k

module _ {A : Type 0} (m : Action A) (h : Error → Action A) where
  handled-committed :
      (r : Result A) (v w : World)
      → v.committed ≡ w.committed
      → ((e : Error) → (u : World) → (h e u).1.committed ≡ u.committed)
      → (handled r h v).1.committed ≡ w.committed
  handled-committed (ok a) v w e k = e
  handled-committed (err x) v w e k = k x v ∙ e

  pub except-IsUncommitted :
      IsUncommitted m → ((e : Error) → IsUncommitted (h e)) → IsUncommitted (except m h)
  unfolding IsUncommitted
  except-IsUncommitted k l w = handled-committed (m w).0 (m w).1 w (k w) l

module _ {A : Type 0} where
  pub pure-IsUncommitted : (a : A) → IsUncommitted (pure a)
  unfolding IsUncommitted
  pure-IsUncommitted a w = refl

  pub gets-IsUncommitted : (f : Db → A) → IsUncommitted (gets f)
  unfolding IsUncommitted
  gets-IsUncommitted f w = refl

  pub or_raise-IsUncommitted : (o : Option A) (e : Error) → IsUncommitted (or_raise o e)
  unfolding IsUncommitted
  or_raise-IsUncommitted none e w = refl
  or_raise-IsUncommitted (some a) e w = refl

  pub scalar_one_or_none-IsUncommitted : (xs : List A) → IsUncommitted (scalar_one_or_none xs)
  unfolding IsUncommitted
  scalar_one_or_none-IsUncommitted [] w = refl
  scalar_one_or_none-IsUncommitted (x ∷ []) w = refl
  scalar_one_or_none-IsUncommitted (x ∷ y ∷ xs) w = refl

  pub if-IsUncommitted :
      (b : Bool) (m n : Action A)
      → IsUncommitted m
      → IsUncommitted n
      → IsUncommitted (if b then m else n)
  if-IsUncommitted true m n h k = h
  if-IsUncommitted false m n h k = k

pub raise-IsUncommitted : (A : Type 0) (e : Error) → IsUncommitted {A = A} (raise e)
unfolding IsUncommitted
raise-IsUncommitted A e w = refl

pub modify-IsUncommitted : (f : Db → Db) → IsUncommitted (modify f)
unfolding IsUncommitted
modify-IsUncommitted f w = refl

pub send-IsUncommitted : (e : Event) → IsUncommitted (send e)
unfolding IsUncommitted
send-IsUncommitted e w = refl

pub ruleset uncommitted = (
  bind-IsUncommitted, except-IsUncommitted, pure-IsUncommitted, gets-IsUncommitted,
  or_raise-IsUncommitted, scalar_one_or_none-IsUncommitted, if-IsUncommitted, modify-IsUncommitted,
  send-IsUncommitted, raise-IsUncommitted,
)

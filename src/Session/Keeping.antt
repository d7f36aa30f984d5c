-- ===== src/Session/Keeping.antt =====
-- Actions that keep a property of the tables, both of those that the session sees and of those that
-- are committed, and how they are put together.
use custody_service.Common.{
  ◌≡◌, refl, Bool, true, false, Option, none, some, List, [], ◌∷◌, if◌then◌else◌,
}
use custody_service.Models.{Db}
use custody_service.Session.{
  World, Result, Action, Error, Event, ok, err, pure, raise, raise_if, gets, modify, send, commit,
  rollback, except, or_raise, scalar_one_or_none, ◌>>=◌, then_run, handled,
}

-- The property holds of the session's tables and of the committed ones.
unfoldable pub Holds : (Db → Type 0) → World → Type 0
Holds I w = I w.db × I w.committed

pub holds_now : (I : Db → Type 0) (w : World) → Holds I w → I w.db
unfolding Holds
holds_now I w h = h.0

unfoldable pub IsKeeping : (Db → Type 0) → {A : Type 0} → Action A → Type 0
IsKeeping I m = (w : World) → Holds I w → Holds I (m w).1

module _ (I : Db → Type 0) {A B : Type 0} (m : Action A) (f : A → Action B) where
  pub then_run-Holds :
      (r : Result A) (v : World)
      → Holds I v
      → ((a : A) → (u : World) → Holds I u → Holds I (f a u).1)
      → Holds I (then_run r f v).1
  then_run-Holds (ok a) v h k = k a v h
  then_run-Holds (err x) v h k = h

  pub bind-IsKeeping : IsKeeping I m → ((a : A) → IsKeeping I (f a)) → IsKeeping I (m >>= f)
  unfolding IsKeeping
  bind-IsKeeping h k w i = then_run-Holds (m w).0 (m w).1 (h w i) k

module _ (I : Db → Type 0) {A : Type 0} (m : Action A) (h : Error → Action A) where
  handled-Holds :
      (r : Result A) (v : World)
      → Holds I v
      → ((e : Error) → (u : World) → Holds I u → Holds I (h e u).1)
      → Holds I (handled r h v).1
  handled-Holds (ok a) v i k = i
  handled-Holds (err x) v i k = k x v i

  pub except-IsKeeping :
      IsKeeping I m → ((e : Error) → IsKeeping I (h e)) → IsKeeping I (except m h)
  unfolding IsKeeping
  except-IsKeeping k l w i = handled-Holds (m w).0 (m w).1 (k w i) l

module _ (I : Db → Type 0) {A : Type 0} where
  pub pure-IsKeeping : (a : A) → IsKeeping I (pure a)
  unfolding IsKeeping
  pure-IsKeeping a w i = i

  pub gets-IsKeeping : (f : Db → A) → IsKeeping I (gets f)
  unfolding IsKeeping
  gets-IsKeeping f w i = i

  pub or_raise-IsKeeping : (o : Option A) (e : Error) → IsKeeping I (or_raise o e)
  unfolding IsKeeping
  or_raise-IsKeeping none e w i = i
  or_raise-IsKeeping (some a) e w i = i

  pub scalar_one_or_none-IsKeeping : (xs : List A) → IsKeeping I (scalar_one_or_none xs)
  unfolding IsKeeping
  scalar_one_or_none-IsKeeping [] w i = i
  scalar_one_or_none-IsKeeping (x ∷ []) w i = i
  scalar_one_or_none-IsKeeping (x ∷ y ∷ xs) w i = i

module _ (I : Db → Type 0) where
  pub raise-IsKeeping : (A : Type 0) (e : Error) → IsKeeping I {A = A} (raise e)
  unfolding IsKeeping
  raise-IsKeeping A e w i = i

  pub if-IsKeeping :
      {A : Type 0} (b : Bool) (m n : Action A)
      → IsKeeping I m
      → IsKeeping I n
      → IsKeeping I (if b then m else n)
  if-IsKeeping true m n h k = h
  if-IsKeeping false m n h k = k

  pub raise_if-IsKeeping : (b : Bool) (e : Error) → IsKeeping I (raise_if b e)
  unfolding IsKeeping
  raise_if-IsKeeping true e w i = i
  raise_if-IsKeeping false e w i = i

  pub commit-IsKeeping : IsKeeping I commit
  unfolding IsKeeping Holds
  commit-IsKeeping w i = (i.0, i.0)

  pub rollback-IsKeeping : IsKeeping I rollback
  unfolding IsKeeping Holds
  rollback-IsKeeping w i = (i.1, i.1)

  pub send-IsKeeping : (e : Event) → IsKeeping I (send e)
  unfolding IsKeeping Holds
  send-IsKeeping e w i = i

  pub modify-IsKeeping : (f : Db → Db) → ((db : Db) → I db → I (f db)) → IsKeeping I (modify f)
  unfolding IsKeeping Holds
  modify-IsKeeping f h w i = (h w.db i.0, i.1)

  -- A value that is there is known to the rest of the action.
  pub given-IsKeeping :
      {A B : Type 0} (o : Option A) (e : Error) (f : A → Action B)
      → ((a : A) → o ≡ some a → IsKeeping I (f a))
      → IsKeeping I (or_raise o e >>= f)
  unfolding IsKeeping
  given-IsKeeping none e f h w i = i
  given-IsKeeping (some a) e f h w i = h a refl w i

pub ruleset keeping = (
  bind-IsKeeping, except-IsKeeping, pure-IsKeeping, raise-IsKeeping, gets-IsKeeping,
  or_raise-IsKeeping, scalar_one_or_none-IsKeeping, raise_if-IsKeeping, commit-IsKeeping,
  if-IsKeeping, rollback-IsKeeping, send-IsKeeping,
)

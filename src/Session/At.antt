-- ===== src/Session/At.antt =====
-- Actions run at one world, where a step's effect depends on the rows that the one before it read.
use custody_service.Common.{◌≡◌, refl, sym, subst, Option, none, some, List, [], ◌∷◌}
use custody_service.Models.{Db}
use custody_service.Session.{
  World, Result, Action, Error, ok, err, gets, pure, modify, or_raise, scalar_one_or_none, except,
  ◌>>=◌, ◌>>◌, then_run, handled,
}
use custody_service.Session.Keeping.{Holds, IsKeeping, then_run-Holds}
use custody_service.Session.Reading.{IsReading}

-- The property holds after the action, which starts at one world.
unfoldable pub HoldsAfter : (Db → Type 0) → World → {A : Type 0} → Action A → Type 0
HoldsAfter I w m = Holds I (m w).1

pub at_every :
    (I : Db → Type 0) {A : Type 0} (m : Action A)
    → ((w : World) → Holds I w → HoldsAfter I w m)
    → IsKeeping I m
unfolding HoldsAfter IsKeeping
at_every I m k = k

module _ (I : Db → Type 0) {A B : Type 0} (w : World) (h : Holds I w) where
  pub scalar-at :
      (xs : List A) (k : Option A → Action B)
      → (xs ≡ [] → HoldsAfter I w (k none))
      → ((x : A) → xs ≡ x ∷ [] → HoldsAfter I w (k (some x)))
      → HoldsAfter I w (scalar_one_or_none xs >>= k)
  unfolding HoldsAfter
  scalar-at [] k f g = f refl
  scalar-at (x ∷ []) k f g = g x refl
  scalar-at (x ∷ y ∷ xs) k f g = h

  pub given-at :
      (o : Option A) (e : Error) (k : A → Action B)
      → ((a : A) → o ≡ some a → HoldsAfter I w (k a))
      → HoldsAfter I w (or_raise o e >>= k)
  unfolding HoldsAfter
  given-at none e k f = h
  given-at (some a) e k f = f a refl

  read_run :
      (r : Result A) (v : World) (k : A → Action B)
      → v ≡ w
      → ((a : A) → HoldsAfter I w (k a))
      → Holds I (then_run r k v).1
  unfolding HoldsAfter
  read_run (ok a) v k e f = subst (λ u. Holds I (k a u).1) (sym e) (f a)
  read_run (err x) v k e f = subst (Holds I) (sym e) h

  -- What only reads leaves the world to the next step.
  pub read-at :
      (m : Action A) (k : A → Action B)
      → IsReading m
      → ((a : A) → HoldsAfter I w (k a))
      → HoldsAfter I w (m >>= k)
  unfolding HoldsAfter IsReading
  read-at m k r f = read_run (m w).0 (m w).1 k (r w) f

  pub gets-at :
      (f : Db → A) (k : A → Action B) → HoldsAfter I w (k (f w.db)) → HoldsAfter I w (gets f >>= k)
  unfolding HoldsAfter
  gets-at f k x = x

module _ (I : Db → Type 0) {B : Type 0} (w : World) (h : Holds I w) where
  pub pure-at : (b : B) → HoldsAfter I w (pure b)
  unfolding HoldsAfter
  pure-at b = h

  -- A change that keeps the property at this world, and steps that keep it everywhere.
  pub modify-at :
      (f : Db → Db) (m : Action B) → I (f w.db) → IsKeeping I m → HoldsAfter I w (modify f >> m)
  unfolding HoldsAfter IsKeeping Holds
  modify-at f m i k = k _ (i, h.1)

module _ (I : Db → Type 0) {A : Type 0} (m : Action A) (g : Error → Action A) (w : World) where
  handled_at :
      (r : Result A) (v : World)
      → Holds I v
      → ((e : Error) → (u : World) → Holds I u → Holds I (g e u).1)
      → Holds I (handled r g v).1
  handled_at (ok a) v h k = h
  handled_at (err x) v h k = k x v h

  pub except-at : HoldsAfter I w m → ((e : Error) → IsKeeping I (g e)) → HoldsAfter I w (except m g)
  unfolding HoldsAfter IsKeeping
  except-at h k = handled_at (m w).0 (m w).1 h k

module _ (I : Db → Type 0) {A B : Type 0} (m : Action A) (k : A → Action B) (w : World) where
  -- A first step that is known at this world, and steps that keep the property everywhere.
  pub after-at : HoldsAfter I w m → ((a : A) → IsKeeping I (k a)) → HoldsAfter I w (m >>= k)
  unfolding HoldsAfter IsKeeping
  after-at h f = then_run-Holds I m k (m w).0 (m w).1 h f

pub ruleset stepping = (except-at, scalar-at, given-at, gets-at, pure-at)

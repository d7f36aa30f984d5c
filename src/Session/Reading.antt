-- ===== src/Session/Reading.antt =====
-- Actions that only read, and actions whose failure leaves no trace.
use custody_service.Common.{
  ◌≡◌, refl, sym, subst, ap, Bool, true, false, Option, none, some, List, [], ◌∷◌, ◌∙◌,
  if◌then◌else◌,
}
use custody_service.Models.{Db}
use custody_service.Session.{
  World, Result, Action, Error, ok, err, pure, raise, raise_if, gets, or_raise, scalar_one_or_none,
  ◌>>=◌, then_run,
}

-- Neither the tables nor the messages change.
unfoldable pub IsReading : {A : Type 0} → Action A → Type 0
IsReading m = (w : World) → (m w).1 ≡ w

-- Nothing is committed or sent where the result is an exception.
abbrev pub Undone : {A : Type 0} → World → Result A × World → Type 0
Undone w (ok a, v) = Unit
Undone w (err e, v) = (v.committed ≡ w.committed) × (v.sent ≡ w.sent)

unfoldable pub IsCleanAt : World → {A : Type 0} → Action A → Type 0
IsCleanAt w m = Undone w (m w)

module _ {A B : Type 0} (m : Action A) (f : A → Action B) where
  then_run-reading :
      (r : Result A) (v w : World)
      → v ≡ w
      → ((a : A) → (u : World) → (f a u).1 ≡ u)
      → (then_run r f v).1 ≡ w
  then_run-reading (ok a) v w e k = k a v ∙ e
  then_run-reading (err x) v w e k = e

  pub bind-IsReading : IsReading m → ((a : A) → IsReading (f a)) → IsReading (m >>= f)
  unfolding IsReading
  bind-IsReading h k w = then_run-reading (m w).0 (m w).1 w (h w) k

  then_run-Undone :
      (r : Result A) (v w : World)
      → v ≡ w
      → ((a : A) → Undone w (f a w))
      → Undone w (then_run r f v)
  then_run-Undone (ok a) v w e k = subst (λ u. Undone w (f a u)) (sym e) (k a)
  then_run-Undone (err x) v w e k =
      (ap (λ (u : World). u.committed) e, ap (λ (u : World). u.sent) e)

  pub bind-IsCleanAt :
      (w : World) → IsReading m → ((a : A) → IsCleanAt w (f a)) → IsCleanAt w (m >>= f)
  unfolding IsReading IsCleanAt
  bind-IsCleanAt w h k = then_run-Undone (m w).0 (m w).1 w (h w) k

module _ {A : Type 0} where
  pub pure-IsReading : (a : A) → IsReading (pure a)
  unfolding IsReading
  pure-IsReading a w = refl

  pub gets-IsReading : (f : Db → A) → IsReading (gets f)
  unfolding IsReading
  gets-IsReading f w = refl

  pub or_raise-IsReading : (o : Option A) (e : Error) → IsReading (or_raise o e)
  unfolding IsReading
  or_raise-IsReading none e w = refl
  or_raise-IsReading (some a) e w = refl

  pub scalar_one_or_none-IsReading : (xs : List A) → IsReading (scalar_one_or_none xs)
  unfolding IsReading
  scalar_one_or_none-IsReading [] w = refl
  scalar_one_or_none-IsReading (x ∷ []) w = refl
  scalar_one_or_none-IsReading (x ∷ y ∷ xs) w = refl

  pub if-IsReading :
      (b : Bool) (m n : Action A) → IsReading m → IsReading n → IsReading (if b then m else n)
  if-IsReading true m n h k = h
  if-IsReading false m n h k = k

pub raise-IsReading : (A : Type 0) (e : Error) → IsReading {A = A} (raise e)
unfolding IsReading
raise-IsReading A e w = refl

pub raise_if-IsReading : (b : Bool) (e : Error) → IsReading (raise_if b e)
unfolding IsReading
raise_if-IsReading true e w = refl
raise_if-IsReading false e w = refl

pub ruleset reading = (
  bind-IsReading, pure-IsReading, gets-IsReading, or_raise-IsReading, scalar_one_or_none-IsReading,
  if-IsReading, raise-IsReading, raise_if-IsReading,
)

-- ===== src/Common/Tables.antt =====
-- Tables with a primary key: updates by `update_where`, and sums over a column.
use Prim.Native.Nat.{ℕ}
use mathlib.Core.Path.{◌≡◌, refl, sym, ap}
use mathlib.Core.Logic.{◌≢◌, inl, inr}
use mathlib.Core.Bool.{Bool, true, false}
use mathlib.Core.List.{List, [], ◌∷◌, ◌++◌}
use mathlib.Core.Option.{some}
use native.Mathlib.Omega.{arith}
use custody_service.Common.Tests.{Bool-cases, if◌then◌else◌}
use custody_service.Common.Int.{ℤ, pos, ◌+ℤ◌, int_laws}
use custody_service.Common.Lists.{find, any, update_where, All}

module _ {ℓ} {A : Type ℓ} where
  pub All-map {κ} : (P Q : A → Type κ) → ((x : A) → P x → Q x) → (xs : List A) → All P xs → All Q xs
  All-map P Q f [] h = tt
  All-map P Q f (x ∷ xs) h = (f x h.0, All-map P Q f xs h.1)

  -- An update keeps what its effect keeps on the rows that it changes.
  pub All-update_where {κ} :
      (P : A → Type κ) (p : A → Bool) (f : A → A)
      → ((x : A) → p x ≡ true → P x → P (f x))
      → (xs : List A) → All P xs
      → All P (update_where p f xs)
  All-update_where P p f keep [] h = tt
  All-update_where P p f keep (x ∷ xs) h = elim (Bool-cases (p x)) [
    | inl e ↦ rw e (keep x e h.0, All-update_where P p f keep xs h.1)
    | inr e ↦ rw e (h.0, All-update_where P p f keep xs h.1)
  ]

  -- An update of no row changes nothing.
  pub update_where_none :
      (p : A → Bool) (f : A → A) (xs : List A) → any p xs ≡ false → update_where p f xs ≡ xs
  update_where_none p f [] h = refl
  update_where_none p f (x ∷ xs) h = ground (arith, update_where_none p f xs)

  pub find-any : (p : A → Bool) (xs : List A) {x : A} → find p xs ≡ some x → any p xs ≡ true
  find-any p [] h = cc
  find-any p (x ∷ xs) {x = y} h = ground (arith, find-any p xs {x = y})

  pub find-test : (p : A → Bool) (xs : List A) {x : A} → find p xs ≡ some x → p x ≡ true
  find-test p [] h = cc
  find-test p (x ∷ xs) {x = y} h = ground (arith, find-test p xs {x = y})

  -- A row that is saved is found where the row that it replaces was found.
  pub find-update_where :
      (p q : A → Bool) (x y : A) (xs : List A)
      → find p xs ≡ some x
      → q x ≡ true
      → p y ≡ true
      → find p (update_where q (λ _. y) xs) ≡ some y
  find-update_where p q x y [] h hq hp = cc
  find-update_where p q x y (z ∷ xs) h hq hp = ground (arith, find-update_where p q x y xs)

regroup : (a b c : ℤ) → a +ℤ b +ℤ c ≡ a +ℤ c +ℤ b
regroup a b c = omega int_laws

push_total :
    (b : Bool) (a c d : ℤ) → a +ℤ (if b then c +ℤ d else c) ≡ (if b then a +ℤ c +ℤ d else a +ℤ c)
push_total true a c d = omega int_laws
push_total false a c d = refl

module _ {ℓ} {A : Type ℓ} (key : A → ℕ) where
  -- No two rows have the same key.
  abbrev pub IsKeyed : List A → Type 0
  IsKeyed [] = Unit
  IsKeyed (x ∷ xs) = All (λ y. key x ≢ key y) xs × IsKeyed xs

  -- A test that only rows of one key pass, passes at no row of another key.
  any_other :
      (p : A → Bool) (i k : ℕ)
      → ((x : A) → p x ≡ true → key x ≡ i)
      → i ≡ k
      → (xs : List A) → All (λ y. k ≢ key y) xs
      → any p xs ≡ false
  any_other p i k at e [] h = refl
  any_other p i k at e (x ∷ xs) h = elim (Bool-cases (p x)) [
    | inl t ↦ absurd (omega (arith, at x t, h.0))
    | inr t ↦ rw t (any_other p i k at e xs h.1)
  ]

  -- The sum of a column.
  abbrev pub total : (A → ℤ) → List A → ℤ
  total m [] = pos 0
  total m (x ∷ xs) = m x +ℤ total m xs

  -- An update of the row with one key moves the sum of a column by the change of that row.
  pub total-update_where :
      (m : A → ℤ) (d : ℤ) (p : A → Bool) (f : A → A) (i : ℕ)
      → ((x : A) → p x ≡ true → key x ≡ i)
      → ((x : A) → p x ≡ true → m (f x) ≡ m x +ℤ d)
      → (xs : List A) → IsKeyed xs
      → total m (update_where p f xs) ≡ (if any p xs then total m xs +ℤ d else total m xs)
  total-update_where m d p f i at moves [] h = refl
  total-update_where m d p f i at moves (x ∷ xs) h = elim (Bool-cases (p x)) [
    | inl t ↦
        rw (t, moves x t, update_where_none p f xs (any_other p i (key x) at (sym (at x t)) xs h.0))
          (regroup (m x) d (total m xs))
    | inr t ↦
        rw (t, total-update_where m d p f i at moves xs h.1)
          (push_total (any p xs) (m x) (total m xs) d)
  ]

  -- An update that leaves the keys alone keeps them distinct.
  pub IsKeyed-update_where :
      (p : A → Bool) (f : A → A)
      → ((x : A) → key (f x) ≡ key x)
      → (xs : List A) → IsKeyed xs
      → IsKeyed (update_where p f xs)
  IsKeyed-update_where p f same [] h = tt
  IsKeyed-update_where p f same (x ∷ xs) h = (apart, IsKeyed-update_where p f same xs h.1)
    where
      new_key : key (if p x then f x else x) ≡ key x
      new_key = ground (arith, same x)

      apart : All (λ y. key (if p x then f x else x) ≢ key y) (update_where p f xs)
      apart =
          All-update_where (λ y. key (if p x then f x else x) ≢ key y) p f
            (λ y _ h'. ground (arith, same y, h')) xs
            (All-map (λ y. key x ≢ key y) (λ y. key (if p x then f x else x) ≢ key y)
              (λ y h'. ground (arith, same x, h')) xs h.0)

  -- A row of the table's key `i` is not there twice.
  only_there :
      (q p : A → Bool) (i : ℕ)
      → ((x : A) → q x ≡ true → key x ≡ i)
      → ((x : A) → p x ≡ true → key x ≡ i)
      → (x : A) (xs : List A) → All (λ y. key x ≢ key y) xs
      → any p xs ≡ true
      → q x ≡ false
  only_there q p i at_q at_p x xs apart later = elim (Bool-cases (q x)) [
    | inl s ↦ cc (any_other p i (key x) at_p (sym (at_q x s)) xs apart)
    | inr s ↦ s
  ]

  -- Two updates of one row, the second of which fits whatever the first has made, are one update.
  pub update_where-twice :
      (p q : A → Bool) (f g h : A → A) (i : ℕ)
      → ((x : A) → p x ≡ true → key x ≡ i)
      → ((x : A) → q x ≡ true → key x ≡ i)
      → ((x : A) → key (f x) ≡ key x)
      → (xs : List A) → All (λ x. p x ≡ true → (q (f x) ≡ true) × (g (f x) ≡ h x)) xs
      → IsKeyed xs
      → any p xs ≡ true
      → (update_where q g (update_where p f xs) ≡ update_where p h xs)
        × (any q (update_where p f xs) ≡ true)
  update_where-twice p q f g h i at_p at_q same [] fits k found = cc
  update_where-twice p q f g h i at_p at_q same (x ∷ xs) fits k found = elim (Bool-cases (p x)) [
    | inl t ↦
        let quiet : any p xs ≡ false = any_other p i (key x) at_p (sym (at_p x t)) xs k.0 in
        let still : any q xs ≡ false = any_other q i (key x) at_q (sym (at_p x t)) xs k.0 in
        rw
          (
            t,
            update_where_none p f xs quiet,
            update_where_none q g xs still,
            update_where_none p h xs quiet,
            (fits.0 t).0,
            (fits.0 t).1,
          )
          (refl, refl)
    | inr t ↦
        let later : any p xs ≡ true = ground arith in
        let (both, again) = update_where-twice p q f g h i at_p at_q same xs fits.1 k.1 later in
        let off : q x ≡ false = only_there q p i at_q at_p x xs k.0 later in
        rw (t, off, both, again) (refl, refl)
  ]

-- A row that is appended and then replaced might as well have been appended as it is in the end.
pub update_where-append {ℓ} :
    {A : Type ℓ} (p : A → Bool) (x y : A) (xs : List A)
    → p x ≡ true
    → p y ≡ true
    → update_where p (λ _. y) (xs ++ x ∷ []) ≡ update_where p (λ _. y) (xs ++ y ∷ [])
update_where-append p x y [] h k = rw (h, k) refl
update_where-append p x y (z ∷ xs) h k =
    ap (λ zs. (if p z then y else z) ∷ zs) (update_where-append p x y xs h k)

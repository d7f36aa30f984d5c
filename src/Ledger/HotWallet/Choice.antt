-- ===== src/Ledger/HotWallet/Choice.antt =====
-- The row that `ORDER BY … LIMIT 1` takes, and the rows that a `WHERE` clause keeps.
use custody_service.Common.{
  ◌≡◌, refl, sym, subst, Bool, true, false, arith, List, [], ◌∷◌, Option, none, some, inl, inr, All,
  In, Bool-cases, select, if◌then◌else◌,
}
use custody_service.Ledger.HotWallet.{Row, comes_before, first_row}

comes_before_irrefl : (r : Row) → comes_before r r ≡ false
unfolding comes_before
comes_before_irrefl r = ground arith

comes_before_asymm : (r s : Row) → comes_before s r ≡ true → comes_before r s ≡ false
unfolding comes_before
comes_before_asymm r s h = ground arith

-- What does not come before `s` does not come before a row that `s` does not come after.
comes_before_trans :
    (r s t : Row) → comes_before s r ≡ false → comes_before t s ≡ false → comes_before t r ≡ false
unfolding comes_before
comes_before_trans r s t h k = ground arith

-- No row of the list comes before `r`.
abbrev pub IsFirst : Row → List Row → Type 0
IsFirst r rs = All (λ s. comes_before s r ≡ false) rs

IsFirst-weaken :
    (r s : Row) (rs : List Row) → comes_before s r ≡ false → IsFirst s rs → IsFirst r rs
IsFirst-weaken r s [] h f = tt
IsFirst-weaken r s (t ∷ rs) h f = (comes_before_trans r s t h f.0, IsFirst-weaken r s rs h f.1)

pub first_row-none : (rs : List Row) → first_row rs ≡ none → rs ≡ []
unfolding first_row
first_row-none [] h = refl
first_row-none (x ∷ rs) h = ground arith

-- The row taken is one of the list, and none comes before it.
pub first_row-IsFirst : (rs : List Row) (r : Row) → first_row rs ≡ some r → In r rs × IsFirst r rs
unfolding first_row
first_row-IsFirst [] r h = cc
first_row-IsFirst (x ∷ rs) r h = go (first_row rs) refl (λ s. first_row-IsFirst rs s)
  where
    at : (t : Row) → r ≡ t → In t (x ∷ rs) × IsFirst t (x ∷ rs) → In r (x ∷ rs) × IsFirst r (x ∷ rs)
    at t e h = subst (λ u. In u (x ∷ rs) × IsFirst u (x ∷ rs)) (sym e) h

    go :
        (o : Option Row)
        → first_row rs ≡ o
        → ((s : Row) → first_row rs ≡ some s → In s rs × IsFirst s rs)
        → In r (x ∷ rs) × IsFirst r (x ∷ rs)
    go none e ih =
        let alone : rs ≡ [] = first_row-none rs e in
        let same : r ≡ x = ground arith in
        at x same (rw alone (inl refl, (comes_before_irrefl x, tt)))
    go (some s) e ih = elim (Bool-cases (comes_before s x)) [
      | inl b ↦
          let same : r ≡ s = ground arith in
          at s same (inr (ih s e).0, (comes_before_asymm x s b, (ih s e).1))
      | inr b ↦
          let same : r ≡ x = ground arith in
          at x same (inl refl, (comes_before_irrefl x, IsFirst-weaken x s rs b (ih s e).1))
    ]

module _ {A : Type 0} (p : A → Bool) where
  pub In-select : (x : A) (xs : List A) → In x (select p xs) → In x xs × (p x ≡ true)
  In-select x [] i = elim i [ ]
  In-select x (y ∷ xs) i = go (p y) refl (In-select x xs) i
    where
      go :
          (b : Bool)
          → p y ≡ b
          → (In x (select p xs) → In x xs × (p x ≡ true))
          → In x (if b then y ∷ select p xs else select p xs)
          → In x (y ∷ xs) × (p x ≡ true)
      go true e ih (inl same) = (inl same, rw same e)
      go true e ih (inr later) = (inr (ih later).0, (ih later).1)
      go false e ih later = (inr (ih later).0, (ih later).1)

  pub All-select :
      (P : A → Type 0) (xs : List A) → All P (select p xs) → All (λ x. p x ≡ true → P x) xs
  All-select P [] a = tt
  All-select P (x ∷ xs) a = go (p x) refl (All-select P xs) a
    where
      go :
          (b : Bool)
          → p x ≡ b
          → (All P (select p xs) → All (λ y. p y ≡ true → P y) xs)
          → All P (if b then x ∷ select p xs else select p xs)
          → (p x ≡ true → P x) × All (λ y. p y ≡ true → P y) xs
      go true e ih h = (λ _. h.0, ih h.1)
      go false e ih h = (λ t. cc (e, t), ih h)

  pub select-none : (xs : List A) → select p xs ≡ [] → All (λ x. p x ≡ false) xs
  select-none [] h = tt
  select-none (x ∷ xs) h = ground (arith, select-none xs)

-- ===== src/Treasury/Primary/Changes.antt =====
-- Changes of a vault's row that keep one primary vault for each type.
use custody_service.Common.{
  ◌≡◌, refl, subst, true, false, Bool, Bool-cases, some, inl, inr, List, [], ◌∷◌, ◌==◌, All,
  All-map, find, select, update_where, arith, if◌then◌else◌,
}
use custody_service.Models.{Vault, VaultType}
use custody_service.Bootstrap.{same_type, is_primary_of, set_primary}
use custody_service.Treasury.Vaults.{is_rival}
use custody_service.Treasury.Primary.{Names, IsSinglePrimary, IsVacant}

module _ {A : Type 0} (P Q : A → Type 0) (p : A → Bool) (f : A → A) where
  All-updated :
      ((x : A) → p x ≡ true → P x → Q (f x))
      → ((x : A) → p x ≡ false → P x → Q x)
      → (xs : List A) → All P xs
      → All Q (update_where p f xs)
  All-updated new old [] h = tt
  All-updated new old (x ∷ xs) h = elim (Bool-cases (p x)) [
    | inl e ↦ rw e (new x e h.0, All-updated new old xs h.1)
    | inr e ↦ rw e (old x e h.0, All-updated new old xs h.1)
  ]

module _ {A : Type 0} (p : A → Bool) where
  pub select-vacant : (xs : List A) → select p xs ≡ [] → All (λ x. p x ≡ false) xs
  select-vacant [] e = tt
  select-vacant (x ∷ xs) e = elim (Bool-cases (p x)) [
    | inl t ↦ absurd (ground (arith, t, e))
    | inr t ↦ (t, select-vacant xs (ground (arith, t, e)))
  ]

  only_row : (x : A) (xs : List A) → select p xs ≡ x ∷ [] → All (λ y. p y ≡ true → y ≡ x) xs
  only_row x [] e = tt
  only_row x (y ∷ ys) e = elim (Bool-cases (p y)) [
    | inl t ↦
        let rest : select p ys ≡ [] = ground (arith, t, e) in
        (
          λ _. ground (arith, t, e),
          All-map (λ z. p z ≡ false) (λ z. p z ≡ true → z ≡ x) (λ z k l. absurd (cc (k, l))) ys
              (select-vacant ys rest),
        )
    | inr t ↦ (λ k. absurd (cc (k, t)), only_row x ys (ground (arith, t, e)))
  ]

  pub row-passes : (x : A) (xs : List A) → select p xs ≡ x ∷ [] → p x ≡ true
  row-passes x [] e = cc
  row-passes x (y ∷ ys) e = elim (Bool-cases (p y)) [
    | inl t ↦ let same : y ≡ x = ground (arith, t, e) in subst (λ z. p z ≡ true) same t
    | inr t ↦ row-passes x ys (ground (arith, t, e))
  ]

  pub find-All : (P : A → Type 0) (x : A) (xs : List A) → find p xs ≡ some x → All P xs → P x
  find-All P x [] e h = cc
  find-All P x (y ∷ ys) e h = elim (Bool-cases (p y)) [
    | inl t ↦ let same : y ≡ x = ground arith in subst P same h.0
    | inr t ↦ find-All P x ys (ground arith) h.1
  ]

-- The only primary vault of a type is unset: the type is vacant.
pub unset-IsVacant :
    (t : VaultType) (vs : List Vault) (x : Vault)
    → select (is_primary_of t) vs ≡ x ∷ []
    → IsVacant t (update_where (λ (u : Vault). u.id == x.id) (λ _. set_primary false x) vs)
unset-IsVacant t vs x e =
    All-updated (λ y. is_primary_of t y ≡ true → y ≡ x) (λ y. is_primary_of t y ≡ false)
      (λ (u : Vault). u.id == x.id) (λ _. set_primary false x) (λ y _ _. ground arith)
      (λ y other k. elim (Bool-cases (is_primary_of t y)) [
        | inl p ↦ absurd (ground (arith, k p, other))
        | inr p ↦ p
      ])
      vs (only_row (is_primary_of t) x vs e)

-- A row is replaced by one that, where it is primary, is named as before.
pub replaced-IsSinglePrimary :
    (vs : List Vault) (x : Vault) (s : IsSinglePrimary vs)
    → ((t : VaultType) → Names t (s.primary_id t) x)
    → IsSinglePrimary (update_where (λ (u : Vault). u.id == x.id) (λ _. x) vs)
replaced-IsSinglePrimary vs x s k = record {
  primary_id = s.primary_id;
  only = λ t.
      All-updated (Names t (s.primary_id t)) (Names t (s.primary_id t))
        (λ (u : Vault). u.id == x.id) (λ _. x) (λ y _ _. k t) (λ y _ h. h) vs (s.only t);
}

-- A row becomes primary where no other row of its type is.
pub promoted-IsSinglePrimary :
    (vs : List Vault) (x : Vault)
    → IsSinglePrimary vs
    → All (λ u. is_primary_of x.vault_type u ≡ true → u.id ≡ x.id) vs
    → IsSinglePrimary (update_where (λ (u : Vault). u.id == x.id) (λ _. x) vs)
promoted-IsSinglePrimary vs x s k = record {
  primary_id = λ t. if same_type x.vault_type t then x.id else s.primary_id t;
  only = λ t. elim (Bool-cases (same_type x.vault_type t)) [
    | inl e ↦ rw e (
        All-updated (Names x.vault_type x.id) (Names t x.id) (λ (u : Vault). u.id == x.id) (λ _. x)
          (λ _ _ _ _. refl) (λ u _ h p. h (ground (arith, p, e))) vs k)
    | inr e ↦ rw e (
        All-updated (Names t (s.primary_id t)) (Names t (s.primary_id t))
          (λ (u : Vault). u.id == x.id) (λ _. x) (λ _ _ _ p. absurd (ground (arith, p, e)))
          (λ u _ h. h) vs (s.only t))
  ];
}

-- The rivals of a vault are unset: only its own row can be primary.
pub unset_rivals-Names :
    (v : Vault) (vs : List Vault)
    → All
        (λ u. is_primary_of v.vault_type u ≡ true → u.id ≡ v.id)
        (update_where (is_rival v) (set_primary false) vs)
unset_rivals-Names v [] = tt
unset_rivals-Names v (u ∷ vs) = elim (Bool-cases (is_rival v u)) [
  | inl e ↦ rw e (λ p. absurd (ground (arith, p)), unset_rivals-Names v vs)
  | inr e ↦ rw e (λ p. ground (arith, p, e), unset_rivals-Names v vs)
]

pub unset_rivals-IsSinglePrimary :
    (v : Vault) (vs : List Vault)
    → IsSinglePrimary vs
    → IsSinglePrimary (update_where (is_rival v) (set_primary false) vs)
unset_rivals-IsSinglePrimary v vs s = record {
  primary_id = s.primary_id;
  only = λ t.
      All-updated (Names t (s.primary_id t)) (Names t (s.primary_id t)) (is_rival v)
        (set_primary false) (λ u _ _ p. absurd (ground (arith, p))) (λ u _ h. h) vs (s.only t);
}

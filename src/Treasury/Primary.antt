-- ===== src/Treasury/Primary.antt =====
-- One primary vault for each type: what the changes of the vaults keep.
pub mod Changes
pub mod Keeping
pub mod Creation
pub mod Updates
pub mod Balances
use custody_service.Common.{
  ℕ, String, ◌≡◌, refl, sym, ap, ◌∙◌, true, false, Bool, Bool-cases, ◌&&◌, not, Option, none, some,
  inl, inr, List, [], ◌∷◌, ◌++◌, ◌==◌, ==_iff, All, All-map, All-update_where, select, update_where,
  arith, if◌then◌else◌,
}
use custody_service.Models.{Db, Vault, VaultType}
use custody_service.Bootstrap.{rank, same_type, is_primary_of, set_primary}
use custody_service.Treasury.Vaults.{is_rival}

-- The vault has this id, if it is an active primary vault of the type.
abbrev pub Names : VaultType → ℕ → Vault → Type 0
Names t i v = is_primary_of t v ≡ true → v.id ≡ i

-- For each type, all active primary vaults are one row: the one with some id.
pub record IsSinglePrimary (vs : List Vault) : Type 0 where
  pub primary_id : VaultType → ℕ
  pub only : (t : VaultType) → All (Names t (primary_id t)) vs

-- The property as one of the tables.
abbrev pub HasSinglePrimary : Db → Type 0
HasSinglePrimary db = IsSinglePrimary db.vaults

-- No active vault of the type is primary.
abbrev pub IsVacant : VaultType → List Vault → Type 0
IsVacant t vs = All (λ v. is_primary_of t v ≡ false) vs

pub All-append :
    {A : Type 0} (P : A → Type 0) (xs : List A) (x : A) → All P xs → P x → All P (xs ++ x ∷ [])
All-append P [] x h k = (k, tt)
All-append P (y ∷ xs) x h k = (h.0, All-append P xs x h.1 k)

-- A vault that is not primary can be added.
pub add_plain-IsSinglePrimary :
    (vs : List Vault) (v : Vault)
    → v.is_primary ≡ false
    → IsSinglePrimary vs
    → IsSinglePrimary (vs ++ v ∷ [])
add_plain-IsSinglePrimary vs v h s = record {
  primary_id = s.primary_id;
  only = λ t. All-append (Names t (s.primary_id t)) vs v (s.only t) (λ e. ground (arith, h, e));
}

-- A primary vault can be added where the type has none.
pub add_primary-IsSinglePrimary :
    (vs : List Vault) (v : Vault)
    → IsVacant v.vault_type vs
    → IsSinglePrimary vs
    → IsSinglePrimary (vs ++ v ∷ [])
add_primary-IsSinglePrimary vs v h s = record {
  primary_id = λ t. if same_type v.vault_type t then v.id else s.primary_id t;
  only = λ t. elim (Bool-cases (same_type v.vault_type t)) [
    | inl e ↦ rw e (
        All-append (Names t v.id) vs v
          (All-map (λ u. is_primary_of v.vault_type u ≡ false) (Names t v.id)
            (λ u k p. ground (arith, k, p, e)) vs h)
          (λ _. refl))
    | inr e ↦
        rw e (All-append (Names t (s.primary_id t)) vs v (s.only t) (λ p. ground (arith, p, e)))
  ];
}

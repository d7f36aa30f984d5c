-- ===== src/Treasury/Primary/Creation.antt =====
-- The creation of a treasury vault keeps one primary vault for each type.
use custody_service.Common.{
  ℕ, String, ◌≡◌, refl, true, false, Bool, Option, none, some, List, [], ◌∷◌, ◌++◌, ◌+◌, select,
  arith,
}
use custody_service.Models.{Vault, Asset}
use custody_service.Session.{World, Action, Error, scalar_one_or_none, ◌>>=◌, ◌>>◌, then_run}
use custody_service.Session.Keeping.{IsKeeping, Holds, holds_now, keeping}
use custody_service.Session.Reading.{reading}
use custody_service.Session.At.{HoldsAfter, at_every, modify-at, read-at, stepping}
use custody_service.Activation.{Activated}
use custody_service.Activation.Effects.{
  Admits, insert-IsKeeping, activate_asset_for_vault-IsKeeping,
}
use custody_service.Bootstrap.{is_primary_of, set_primary}
use custody_service.Treasury.Vaults.{
  Setting, TreasuryVaultCreateRequest, TreasuryAssetRequest, make_room, unset, created_vault,
  activate_found, activate_one, activate_each, insert_each, undone_500, insert_treasury_vault,
  create_treasury_vault,
}
use custody_service.Treasury.Primary.{
  IsSinglePrimary, HasSinglePrimary, IsVacant, add_plain-IsSinglePrimary,
  add_primary-IsSinglePrimary,
}
use custody_service.Treasury.Primary.Changes.{
  select-vacant, unset-IsVacant, replaced-IsSinglePrimary,
}
use custody_service.Treasury.Primary.Keeping.{replied-IsReading}

-- An activation does not touch the vaults.
pub HasSinglePrimary-Admits : Admits HasSinglePrimary
HasSinglePrimary-Admits = record { adds = λ db id v a x i. i; refreshes = λ db x w i. i }

pub undone_500-IsKeeping :
    (A : Type 0) (e : Error) → IsKeeping HasSinglePrimary {A = A} (undone_500 e)
undone_500-IsKeeping A e = search keeping depth 8

module _ (s : Setting) where
  activate_found-IsKeeping :
      (k : ℕ) (v : Vault) (a : Option Asset) → IsKeeping HasSinglePrimary (activate_found s k v a)
  activate_found-IsKeeping k v none = search keeping
  activate_found-IsKeeping k v (some a) =
      search (keeping, activate_asset_for_vault-IsKeeping HasSinglePrimary HasSinglePrimary-Admits)
        depth 12

  activate_one-IsKeeping :
      (k : ℕ) (v : Vault) (r : TreasuryAssetRequest)
      → IsKeeping HasSinglePrimary (activate_one s k v r)
  activate_one-IsKeeping k v r = search (keeping, activate_found-IsKeeping) depth 12

  activate_each-IsKeeping :
      (k : ℕ) (v : Vault) (rs : List TreasuryAssetRequest)
      → IsKeeping HasSinglePrimary (activate_each s k v rs)
  unfolding activate_each
  activate_each-IsKeeping k v [] = search keeping
  activate_each-IsKeeping k v (r ∷ rs) =
      let rest = activate_each-IsKeeping (k + 1) v rs in
      search (keeping, activate_one-IsKeeping, rest) depth 12

  insert_each-IsKeeping : (xs : List Activated) → IsKeeping HasSinglePrimary (insert_each xs)
  unfolding insert_each
  insert_each-IsKeeping [] = search keeping
  insert_each-IsKeeping (a ∷ rest) =
      search
        (
          keeping,
          insert-IsKeeping HasSinglePrimary HasSinglePrimary-Admits,
          insert_each-IsKeeping rest,
        )
        depth 8

  module _ (q : TreasuryVaultCreateRequest) where
    -- Room for the new vault: it is not primary, or its type has no primary vault.
    abbrev HasRoom : Bool → List Vault → Type 0
    HasRoom false vs = Unit
    HasRoom true vs = IsVacant q.vault_type vs

    roomy :
        (b : Bool) (vs : List Vault) (id : ℕ) (i : String)
        → q.is_primary ≡ b
        → HasRoom b vs
        → IsSinglePrimary vs
        → IsSinglePrimary (vs ++ created_vault id i q ∷ [])
    roomy false vs id i e r h = add_plain-IsSinglePrimary vs (created_vault id i q) e h
    roomy true vs id i e r h = add_primary-IsSinglePrimary vs (created_vault id i q) r h

    insert-after :
        (w : World)
        → HasRoom q.is_primary w.db.vaults
        → Holds HasSinglePrimary w
        → HoldsAfter HasSinglePrimary w (insert_treasury_vault s q)
    unfolding insert_treasury_vault
    insert-after w r h =
        let added = λ (i : String).
          roomy q.is_primary w.db.vaults (s.custody.new_id 0) i refl r
            (holds_now HasSinglePrimary w h) in
        search
          (
            keeping, stepping, reading, read-at, replied-IsReading, modify-at, added,
            activate_each-IsKeeping, insert_each-IsKeeping,
          )
          depth 16

    -- After the search for the primary vault there is room, or the request has failed.
    make_room-after :
        {A : Type 0} (b : Bool) (w : World) (m : Action A)
        → ((u : World)
            → HasRoom b u.db.vaults
            → Holds HasSinglePrimary u
            → HoldsAfter HasSinglePrimary u m)
        → Holds HasSinglePrimary w
        → HoldsAfter HasSinglePrimary w (make_room b q.vault_type >> m)
    unfolding HoldsAfter make_room Holds
    make_room-after false w m k h = k w tt h
    make_room-after true w m k h = go (select (is_primary_of q.vault_type) w.db.vaults) refl
      where
        go :
            (rows : List Vault)
            → select (is_primary_of q.vault_type) w.db.vaults ≡ rows
            → Holds HasSinglePrimary
                (then_run
                  ((scalar_one_or_none rows >>= unset) w).0
                  (λ _. m)
                  ((scalar_one_or_none rows >>= unset) w).1).1
        go [] e = k w (select-vacant (is_primary_of q.vault_type) w.db.vaults e) h
        go (x ∷ []) e = k _ (unset-IsVacant q.vault_type w.db.vaults x e) (
          replaced-IsSinglePrimary w.db.vaults (set_primary false x) h.0 (λ t p. ground (arith, p)),
          h.1,
        )
        go (x ∷ y ∷ xs) e = h

    pub create_treasury_vault-IsKeeping : IsKeeping HasSinglePrimary (create_treasury_vault s q)
    unfolding create_treasury_vault
    create_treasury_vault-IsKeeping = at_every HasSinglePrimary _ (λ w h.
        search (reading, read-at, make_room-after, stepping, insert-after, undone_500-IsKeeping)
          depth 12)

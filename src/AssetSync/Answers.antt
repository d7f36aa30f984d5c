-- ===== src/AssetSync/Answers.antt =====
-- The answers of the refresh, and the key that it leaves.
use custody_service.Common.{
  ℕ, ◌≡◌, refl, ap, ◌∙◌, ◌⊎◌, inl, inr, Bool-cases, true, false, Option, List, if◌then◌else◌,
}
use custody_service.Fireblocks.Assets.{FbAsset}
use custody_service.Locks.{Redis, DistributedLock, aenter, aexit}
use custody_service.Locks.Entering.{IsLocking, enter-free, enter-held}
use custody_service.AssetSync.{
  skipped, asset_sync_lock, new_lock, fetched, refresh_asset_cache_with_lock,
}

module _ {S : Type 0} (server : Redis S) (k : IsLocking server asset_sync_lock) where
  -- While the server answers: either no key was there, the answer is by the provider's, a failure
  -- included, and no key is left, or a key was there, the refresh is skipped, and the key and the
  -- time of the last refresh stay.
  pub refresh-Answers :
      (now : ℕ) (supported : Option (List FbAsset)) (last : Option ℕ) (s : S)
      → let r = refresh_asset_cache_with_lock server true now supported last s in
        ((k.has_key s ≡ false)
          × ((r.answer ≡ (fetched now last supported).0)
              × ((r.last_sync_time ≡ (fetched now last supported).1)
                  × (k.has_key r.store ≡ false))))
        ⊎ ((k.has_key s ≡ true)
            × ((r.answer ≡ skipped) × ((r.last_sync_time ≡ last) × (k.has_key r.store ≡ true))))
  unfolding refresh_asset_cache_with_lock aexit
  refresh-Answers now supported last s = elim (Bool-cases (k.has_key s)) [
    | inl h ↦
        let (e, held) = enter-held server asset_sync_lock k new_lock s refl h in
        inr (
          h,
          (
            ap
                (λ (l : DistributedLock).
                  (if l.acquired then fetched now last supported else (skipped, last)).0)
                e,
            (
              ap
                  (λ (l : DistributedLock).
                    (if l.acquired then fetched now last supported else (skipped, last)).1)
                  e,
              ap (λ l. k.has_key (aexit server l (aenter server true new_lock s).1).1) e ∙ held,
            ),
          ),
        )
    | inr h ↦
        let (e, _) = enter-free server asset_sync_lock k new_lock s refl h in
        inl (
          h,
          (
            ap
                (λ (l : DistributedLock).
                  (if l.acquired then fetched now last supported else (skipped, last)).0)
                e,
            (
              ap
                  (λ (l : DistributedLock).
                    (if l.acquired then fetched now last supported else (skipped, last)).1)
                  e,
              ap (λ l. k.has_key (aexit server l (aenter server true new_lock s).1).1) e
                  ∙ k.deletes (aenter server true new_lock s).1,
            ),
          ),
        )
  ]

-- ===== src/Treasury/Primary/Updates.antt =====
-- The other requests of the treasury keep one primary vault for each type.
use custody_service.Common.{
  ℕ, String, ◌≡◌, refl, true, false, Bool, Option, none, some, List, [], ◌∷◌, ◌+◌, ◌==◌,
  update_where, arith, Option-cases, Bool-cases, inl, inr,
}
use custody_service.Models.{Vault, Asset, Wallet, VaultType, get_vault}
use custody_service.Custody.{Custody, ProviderVault, Reply, answer, failure, replied}
use custody_service.Session.{World, Action, ◌>>=◌}
use custody_service.Session.Keeping.{IsKeeping, Holds, keeping, modify-IsKeeping}
use custody_service.Session.Reading.{IsReading, reading}
use custody_service.Session.At.{HoldsAfter, at_every, after-at}
use custody_service.Activation.Effects.{insert-IsKeeping, activate_asset_for_vault-IsKeeping}
use custody_service.Bootstrap.{set_primary}
use custody_service.Treasury.{is_treasury}
use custody_service.Treasury.Vaults.{
  Setting, TreasuryVaultUpdateRequest, TreasuryAssetRequest, treasury_response, treasury_vault,
  get_treasury_vault, with_settings, is_rival, assign_primary, update_treasury_vault,
}
use custody_service.Treasury.Wallets.{
  activate_now, or_activate, activate_asset_in_treasury_vault, reset_wallet_pending,
}
use custody_service.Treasury.Sync.{
  sync_found, sync_one, add_synced, sync_each, SyncCounts, vault_id_of, sync_vaults_from_fireblocks,
}
use custody_service.Treasury.Primary.{
  IsSinglePrimary, HasSinglePrimary, Names, add_plain-IsSinglePrimary,
}
use custody_service.Treasury.Primary.Changes.{
  find-All, replaced-IsSinglePrimary, promoted-IsSinglePrimary, unset_rivals-Names,
  unset_rivals-IsSinglePrimary,
}
use custody_service.Treasury.Primary.Creation.{HasSinglePrimary-Admits, undone_500-IsKeeping}

treasury_response-IsReading : (v : Vault) → IsReading (treasury_response v)
unfolding treasury_response
treasury_response-IsReading v = search reading depth 8

treasury_vault-IsKeeping : (i : ℕ) → IsKeeping HasSinglePrimary (treasury_vault i)
unfolding treasury_vault
treasury_vault-IsKeeping i = search keeping depth 10

get_treasury_vault-IsKeeping : (i : ℕ) → IsKeeping HasSinglePrimary (get_treasury_vault i)
unfolding get_treasury_vault treasury_response
get_treasury_vault-IsKeeping i = search (keeping, treasury_vault-IsKeeping) depth 10

module _ (s : Setting) where
  activate_now-IsKeeping : (v : Vault) (a : Asset) → IsKeeping HasSinglePrimary (activate_now s v a)
  unfolding activate_now
  activate_now-IsKeeping v a =
      search
        (
          keeping,
          activate_asset_for_vault-IsKeeping HasSinglePrimary HasSinglePrimary-Admits,
          insert-IsKeeping HasSinglePrimary HasSinglePrimary-Admits,
          undone_500-IsKeeping,
        )
        depth 12

  or_activate-IsKeeping :
      (v : Vault) (a : Asset) (w : Option Wallet) → IsKeeping HasSinglePrimary (or_activate s v a w)
  or_activate-IsKeeping v a none = activate_now-IsKeeping v a
  or_activate-IsKeeping v a (some w) = search keeping depth 8

  pub activate_asset_in_treasury_vault-IsKeeping :
      (i : ℕ) (r : TreasuryAssetRequest)
      → IsKeeping HasSinglePrimary (activate_asset_in_treasury_vault s i r)
  unfolding activate_asset_in_treasury_vault
  activate_asset_in_treasury_vault-IsKeeping i r =
      search (keeping, treasury_vault-IsKeeping, or_activate-IsKeeping) depth 12

pub reset_wallet_pending-IsKeeping : (i : ℕ) → IsKeeping HasSinglePrimary (reset_wallet_pending i)
unfolding reset_wallet_pending
reset_wallet_pending-IsKeeping i =
    let same = modify-IsKeeping HasSinglePrimary in search (keeping, same) depth 10

add_synced-IsKeeping :
    (id : ℕ) (i : String) (v : ProviderVault) → IsKeeping HasSinglePrimary (add_synced id i v)
add_synced-IsKeeping id i v =
    modify-IsKeeping HasSinglePrimary _ (λ db h. add_plain-IsSinglePrimary db.vaults _ refl h)

sync_found-IsKeeping :
    (id : ℕ) (i : String) (v : ProviderVault) (u : Option Vault) (rest : Action SyncCounts)
    → IsKeeping HasSinglePrimary rest
    → IsKeeping HasSinglePrimary (sync_found id i v u rest)
sync_found-IsKeeping id i v none rest k = search (keeping, add_synced-IsKeeping) depth 8
sync_found-IsKeeping id i v (some u) rest k = search keeping depth 8

sync_one-IsKeeping :
    (id : ℕ) (v : ProviderVault) (i : Option String) (rest : Action SyncCounts)
    → IsKeeping HasSinglePrimary rest
    → IsKeeping HasSinglePrimary (sync_one id v i rest)
sync_one-IsKeeping id v none rest k = search keeping depth 8
sync_one-IsKeeping id v (some i) rest k = search (keeping, sync_found-IsKeeping) depth 8

sync_each-IsKeeping :
    (c : Custody) (k : ℕ) (vs : List ProviderVault) → IsKeeping HasSinglePrimary (sync_each c k vs)
unfolding sync_each
sync_each-IsKeeping c k [] = search keeping
sync_each-IsKeeping c k (v ∷ vs) =
    sync_one-IsKeeping (c.new_id k) v (vault_id_of v) (sync_each c (k + 1) vs)
      (sync_each-IsKeeping c (k + 1) vs)

replied-IsKeeping : {A : Type 0} (r : Reply A) → IsKeeping HasSinglePrimary (replied r)
replied-IsKeeping (answer a) = search keeping
replied-IsKeeping (failure m) = search keeping

pub sync_vaults_from_fireblocks-IsKeeping :
    (c : Custody) → IsKeeping HasSinglePrimary (sync_vaults_from_fireblocks c)
unfolding sync_vaults_from_fireblocks
sync_vaults_from_fireblocks-IsKeeping c =
    search (keeping, replied-IsKeeping, sync_each-IsKeeping) depth 8

module _ (w : World) (h : Holds HasSinglePrimary w) where
  treasury_vault-after :
      {B : Type 0} (i : ℕ) (k : Vault → Action B)
      → ((v : Vault) → get_vault w.db i ≡ some v → HoldsAfter HasSinglePrimary w (k v))
      → HoldsAfter HasSinglePrimary w (treasury_vault i >>= k)
  unfolding HoldsAfter treasury_vault
  treasury_vault-after i k f = elim (Option-cases (get_vault w.db i)) [
    | inl e ↦ rw e h
    | inr (v, e) ↦ elim (Bool-cases (is_treasury v.vault_type)) [
      | inl t ↦ rw (e, t) (f v e)
      | inr t ↦ rw (e, t) h
    ]
  ]

  named :
      (i : ℕ) (v : Vault)
      → get_vault w.db i ≡ some v
      → (s : IsSinglePrimary w.db.vaults) → (t : VaultType) → Names t (s.primary_id t) v
  named i v e s t =
      find-All (λ (u : Vault). u.id == i) (Names t (s.primary_id t)) v w.db.vaults e (s.only t)

  assign_primary-after :
      (b : Option Bool) (v : Vault)
      → ((s : IsSinglePrimary w.db.vaults) → (t : VaultType) → Names t (s.primary_id t) v)
      → HoldsAfter HasSinglePrimary w (assign_primary b v)
  unfolding HoldsAfter assign_primary Holds
  assign_primary-after none v k = (replaced-IsSinglePrimary w.db.vaults v h.0 (k h.0), h.1)
  assign_primary-after (some false) v k = (
    replaced-IsSinglePrimary w.db.vaults (set_primary false v) h.0 (λ t p. ground (arith, p)),
    h.1,
  )
  assign_primary-after (some true) v k = (
    promoted-IsSinglePrimary (update_where (is_rival v) (set_primary false) w.db.vaults)
        (set_primary true v) (unset_rivals-IsSinglePrimary v w.db.vaults h.0)
        (unset_rivals-Names v w.db.vaults),
    h.1,
  )

pub update_treasury_vault-IsKeeping :
    (i : ℕ) (q : TreasuryVaultUpdateRequest)
    → IsKeeping HasSinglePrimary (update_treasury_vault i q)
unfolding update_treasury_vault
update_treasury_vault-IsKeeping i q = at_every HasSinglePrimary _ (λ w h.
    treasury_vault-after w h i _ (λ v e.
      after-at HasSinglePrimary _ _ w
        (assign_primary-after w h q.is_primary (with_settings q v) (named w h i v e))
        (λ _. search (keeping, get_treasury_vault-IsKeeping) depth 8)))

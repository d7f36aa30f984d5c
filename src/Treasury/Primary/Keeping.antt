-- ===== src/Treasury/Primary/Keeping.antt =====
-- Each request of the treasury keeps one primary vault for each type.
use custody_service.Common.{
  String, ◌≡◌, true, false, Option, none, some, List, [], ◌∷◌, select, All-map, arith,
}
use custody_service.Models.{Vault, VaultType}
use custody_service.Custody.{Custody, Reply, answer, failure, ProviderVault, replied}
use custody_service.Session.{World, Error}
use custody_service.Session.Keeping.{IsKeeping, Holds, holds_now, keeping}
use custody_service.Session.Reading.{IsReading, reading}
use custody_service.Session.At.{HoldsAfter, at_every, modify-at, pure-at, read-at, stepping}
use custody_service.Bootstrap.{
  is_primary_of, is_active_of, set_primary, default_among, provider_vault, default_vault,
  insert_default, without_primary, bootstrap_default_hot_wallet, nothing_made,
}
use custody_service.Treasury.Primary.{HasSinglePrimary, IsVacant, add_primary-IsSinglePrimary}
use custody_service.Treasury.Primary.Changes.{select-vacant, row-passes, promoted-IsSinglePrimary}

pub replied-IsReading : {A : Type 0} (r : Reply A) → IsReading (replied r)
replied-IsReading (answer a) = search reading
replied-IsReading (failure m) = search reading

nothing_made-IsKeeping :
    (A : Type 0) (a : A) (e : Error) → IsKeeping HasSinglePrimary (nothing_made a e)
nothing_made-IsKeeping A a e = search keeping

default_among-IsReading : (vs : List ProviderVault) → IsReading (default_among vs)
unfolding default_among
default_among-IsReading [] = search reading
default_among-IsReading (v ∷ vs) = search (reading, default_among-IsReading vs) depth 10

provider_vault-IsReading : (c : Custody) (r : Reply String) → IsReading (provider_vault c r)
unfolding provider_vault
provider_vault-IsReading c (answer i) = search reading
provider_vault-IsReading c (failure m) =
    search (reading, replied-IsReading, default_among-IsReading) depth 10

-- The rows of a search that found at most one.
abbrev from : {A : Type 0} → Option A → List A
from none = []
from (some a) = a ∷ []

module _ (w : World) (h : Holds HasSinglePrimary w) where
  -- The default vault is made where there is no primary HOT vault.
  insert_default-after :
      (c : Custody) (i : Option String)
      → IsVacant VaultType.hot w.db.vaults
      → HoldsAfter HasSinglePrimary w (insert_default c i)
  insert_default-after c none k = search (pure-at, h)
  insert_default-after c (some i) k =
      let s =
        add_primary-IsSinglePrimary w.db.vaults (default_vault (c.new_id 0) i) k
          (holds_now HasSinglePrimary w h) in
      search (keeping, modify-at HasSinglePrimary w h, s) depth 8

  without_primary-after :
      (c : Custody) (v : Option Vault)
      → IsVacant VaultType.hot w.db.vaults
      → select (is_active_of VaultType.hot) w.db.vaults ≡ from v
      → HoldsAfter HasSinglePrimary w (without_primary c v)
  unfolding without_primary
  without_primary-after c none k e =
      read-at HasSinglePrimary w h _ _ (provider_vault-IsReading c _)
        (λ i. insert_default-after c i k)
  without_primary-after c (some v) k e =
      let hot = row-passes (is_active_of VaultType.hot) v w.db.vaults e in
      let s =
        promoted-IsSinglePrimary w.db.vaults (set_primary true v) (holds_now HasSinglePrimary w h) (
          All-map (λ u. is_primary_of VaultType.hot u ≡ false)
            (λ u. is_primary_of v.vault_type u ≡ true → u.id ≡ v.id)
            (λ u a b. absurd (ground (arith, hot, a, b))) w.db.vaults k) in
      search (keeping, modify-at HasSinglePrimary w h, s) depth 8

pub bootstrap-IsKeeping :
    (c : Custody) → IsKeeping HasSinglePrimary (bootstrap_default_hot_wallet c)
unfolding bootstrap_default_hot_wallet
bootstrap-IsKeeping c = at_every HasSinglePrimary _ (λ w h.
    let vacant = select-vacant (is_primary_of VaultType.hot) w.db.vaults in
    search (stepping, vacant, without_primary-after, nothing_made-IsKeeping) depth 12)

-- ===== src/Treasury/Sequences.antt =====
-- The requests that change the treasury, one after another, each in a session of its own, with the
-- service's start among them.
use custody_service.Common.{ℕ, String, Option, List, [], ◌∷◌}
use custody_service.Models.{Db}
use custody_service.Custody.{Custody, Reply}
use custody_service.Outside.{Outside}
use custody_service.BalanceSync.{ReportedBalance, sync_treasury_balances}
use custody_service.Session.{Action, World, Event, idle, respond}
use custody_service.Session.Keeping.{IsKeeping, Holds}
use custody_service.Bootstrap.{bootstrap_default_hot_wallet}
use custody_service.Treasury.Vaults.{
  Setting, TreasuryVaultCreateRequest, TreasuryVaultUpdateRequest, TreasuryAssetRequest,
  create_treasury_vault, update_treasury_vault,
}
use custody_service.Treasury.Wallets.{activate_asset_in_treasury_vault, reset_wallet_pending}
use custody_service.Treasury.Sync.{sync_vaults_from_fireblocks}
use custody_service.Treasury.Primary.{HasSinglePrimary}
use custody_service.Treasury.Primary.Keeping.{bootstrap-IsKeeping}
use custody_service.Treasury.Primary.Balances.{sync_treasury_balances-IsKeeping}
use custody_service.Treasury.Primary.Creation.{create_treasury_vault-IsKeeping}
use custody_service.Treasury.Primary.Updates.{
  update_treasury_vault-IsKeeping, activate_asset_in_treasury_vault-IsKeeping,
  reset_wallet_pending-IsKeeping, sync_vaults_from_fireblocks-IsKeeping,
}

pub data TreasuryRequest : Type 0 where
  bootstrap : Custody → TreasuryRequest
  create : Setting → TreasuryVaultCreateRequest → TreasuryRequest
  update : ℕ → TreasuryVaultUpdateRequest → TreasuryRequest
  activate : Setting → ℕ → TreasuryAssetRequest → TreasuryRequest
  sync : Custody → TreasuryRequest
  reset_pending : ℕ → TreasuryRequest
  sync_balances : Outside → (String → Reply (Option (List ReportedBalance))) → TreasuryRequest

-- The world after a request.
unfoldable pub treasury_after : TreasuryRequest → World → World
treasury_after (bootstrap c) w = (respond (bootstrap_default_hot_wallet c) w).1
treasury_after (create s q) w = (respond (create_treasury_vault s q) w).1
treasury_after (update i q) w = (respond (update_treasury_vault i q) w).1
treasury_after (activate s i r) w = (respond (activate_asset_in_treasury_vault s i r) w).1
treasury_after (sync c) w = (respond (sync_vaults_from_fireblocks c) w).1
treasury_after (reset_pending i) w = (respond (reset_wallet_pending i) w).1
treasury_after (sync_balances o get) w = (respond (sync_treasury_balances o get) w).1

unfoldable pub serve_treasury : List TreasuryRequest → World → World
unfolding treasury_after
serve_treasury [] w = w
serve_treasury (r ∷ rs) w =
    let v = treasury_after r (idle w.committed w.sent) in serve_treasury rs v

ends :
    {A : Type 0} (m : Action A) (db : Db) (es : List Event)
    → IsKeeping HasSinglePrimary m
    → HasSinglePrimary db
    → HasSinglePrimary (respond m (idle db es)).1.committed
unfolding IsKeeping Holds
ends m db es k h = (k (idle db es) (h, h)).1

after-HasSinglePrimary :
    (r : TreasuryRequest) (db : Db) (es : List Event)
    → HasSinglePrimary db
    → HasSinglePrimary (treasury_after r (idle db es)).committed
unfolding treasury_after
after-HasSinglePrimary (bootstrap c) db es h =
    ends (bootstrap_default_hot_wallet c) db es (bootstrap-IsKeeping c) h
after-HasSinglePrimary (create s q) db es h =
    ends (create_treasury_vault s q) db es (create_treasury_vault-IsKeeping s q) h
after-HasSinglePrimary (update i q) db es h =
    ends (update_treasury_vault i q) db es (update_treasury_vault-IsKeeping i q) h
after-HasSinglePrimary (activate s i r) db es h =
    ends (activate_asset_in_treasury_vault s i r) db es
      (activate_asset_in_treasury_vault-IsKeeping s i r) h
after-HasSinglePrimary (sync c) db es h =
    ends (sync_vaults_from_fireblocks c) db es (sync_vaults_from_fireblocks-IsKeeping c) h
after-HasSinglePrimary (reset_pending i) db es h =
    ends (reset_wallet_pending i) db es (reset_wallet_pending-IsKeeping i) h
after-HasSinglePrimary (sync_balances o get) db es h =
    ends (sync_treasury_balances o get) db es (sync_treasury_balances-IsKeeping o get) h

-- Whatever requests change the treasury, in whatever order and with whatever answers of the
-- provider, failing or not: creations and updates of vaults, activations of assets, imports of the
-- provider's vaults, resets of a reserve, synchronisations of the balances, and starts of the
-- service. If at the start all active primary vaults of a type are one row, then so it is in the
-- tables committed at the end.
pub serve_treasury-HasSinglePrimary :
    (rs : List TreasuryRequest) (w : World)
    → HasSinglePrimary w.committed
    → HasSinglePrimary (serve_treasury rs w).committed
unfolding serve_treasury
serve_treasury-HasSinglePrimary [] w h = h
serve_treasury-HasSinglePrimary (r ∷ rs) w h =
    serve_treasury-HasSinglePrimary rs (treasury_after r (idle w.committed w.sent))
      (after-HasSinglePrimary r w.committed w.sent h)

-- ===== src/Tests/Balances.antt =====
-- A synchronisation: the first wallet's balance falls below its reserve, and the second one's
-- growth lets the waiting transfer go.
use custody_service.Common.{
  String, ◌≡◌, refl, Option, none, some, List, [], ◌∷◌, ℤ, pos, map, text_eq, if◌then◌else◌, ◌+ℤ◌,
  ◌-ℤ◌,
}
use custody_service.Models.{Wallet}
use custody_service.Outside.{Outside}
use custody_service.Fireblocks.Assets.{FbAsset}
use custody_service.Custody.{Reply, answer}
use custody_service.Session.{respond}
use custody_service.BalanceSync.Waiting.{_process_pending_queue_after_sync}
use custody_service.Fireblocks.Resolver.{look_up}
use custody_service.Transfers.{process_pending_balance_transfer}
use custody_service.Ledger.HotWallet.{select_and_reserve_hot_wallet}
use custody_service.BalanceSync.{ReportedBalance, sync_treasury_balances}
use custody_service.Tests.Data.{world, taking}

abbrev coin : FbAsset
coin = record {
  id = "ETH";
  contract_address = none;
  issuer_address = none;
  type = some "BASE_ASSET";
  native_asset = some "ETH";
  symbol = none;
  decimals = some 18;
}

abbrev outside : Outside
outside = record taking {
  decimal = λ s. if text_eq s "30" then some (pos 30) else some (pos 900);
  supported_assets = some (coin ∷ []);
}

abbrev provider_answer : String → Reply (Option (List ReportedBalance))
provider_answer i =
    if text_eq i "one"
    then answer (some (record { id = "ETH"; total = some "30" } ∷ []))
    else answer (some (record { id = "ETH"; total = some "900" } ∷ []))

abbrev after : List (ℤ × ℤ)
after =
    map (λ (w : Wallet). (w.balance, w.pending_amount))
      (respond (sync_treasury_balances outside provider_answer) world).1.committed.wallets

run_sync : after ≡ (pos 30, pos 40) ∷ (pos 900, pos 800) ∷ []
unfolding sync_treasury_balances _process_pending_queue_after_sync look_up
    process_pending_balance_transfer select_and_reserve_hot_wallet ◌-ℤ◌ ◌+ℤ◌
run_sync = refl

-- ===== src/Tests/Creation.antt =====
-- Transfers that are created: an external one whose wallet is selected, and an internal one that
-- the provider refuses.
use custody_service.Common.{◌≡◌, refl, none, pos, ◌≢◌, upper, [], arith, ◌-ℤ◌}
use custody_service.Ledger.{reserve_balance}
use custody_service.Ledger.HotWallet.{select_and_reserve_hot_wallet, short, no_hot_wallet}
use custody_service.Session.{respond, idle, err, http}
use custody_service.Outside.{Outside}
use custody_service.Session.Reading.{IsCleanAt}
use custody_service.Api.Creation.{create_selected}
use custody_service.Api.Creation.Answers.{by_selection, create_selected-Answer}
use custody_service.Api.Internal.{create_internal_transfer}
use custody_service.Api.Internal.Atomic.{create_internal_transfer-IsCleanAt}
use custody_service.Tests.Data.{db, world, taking, custody, payout, move}

selects : select_and_reserve_hot_wallet db none "ethereum" (pos 20) ≢ short no_hot_wallet
unfolding select_and_reserve_hot_wallet upper
selects e = ground (arith, e)

create_selected-Answer_example :
    respond (create_selected taking custody "new" payout) world
    ≡ by_selection taking payout db [] "new" "ethereum" "ETH"
        (pos 20)
        (pos 5)
        (select_and_reserve_hot_wallet db none "ethereum" (pos 20))
create_selected-Answer_example =
    create_selected-Answer taking payout db [] "new" "ethereum" "ETH" (pos 20) (pos 5) custody
      (record { fresh = refl; chain = refl; symbol = refl; amount = refl; usd = refl }) selects

abbrev refusing : Outside
refusing = record taking { create_transaction = λ t. none }

-- The wallet has the balance and it is reserved, and then the provider refuses.
run_refused : (create_internal_transfer refusing move world).0 ≡ err (http 500)
unfolding create_internal_transfer ◌-ℤ◌ reserve_balance
run_refused = refl

create_internal_transfer-IsCleanAt_example :
    IsCleanAt (idle db []) (create_internal_transfer refusing move)
create_internal_transfer-IsCleanAt_example =
    create_internal_transfer-IsCleanAt refusing move db [] refl

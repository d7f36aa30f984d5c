-- ===== src/Tests/Requests.antt =====
-- A run of requests: a reservation is paid out, one is released twice, and transfers are created.
use custody_service.Common.{
  length, ◌≡◌, refl, arith, none, All, List, [], ◌∷◌, ℤ, pos, ◌+ℤ◌, ◌-ℤ◌, map, upper,
}
use custody_service.Models.{Wallet}
use custody_service.Ledger.{release_reserve, reserve_balance}
use custody_service.Session.{respond}
use custody_service.Ledger.HotWallet.{select_and_reserve_hot_wallet}
use custody_service.Transfers.{new_row, process_pending_balance_transfer}
use custody_service.Transfers.Queue.{get_pending_balance_transfers}
use custody_service.Api.QueueRun.{process_queue}
use custody_service.Api.QueueRun.Effect.{retried, process_pending_balance_transfer-retried}
use custody_service.Requests.Queue.{Passes, process_queue-Passes}
use custody_service.Api.Lifecycle.{complete_transfer, cancel_transfer_endpoint}
use custody_service.Broker.{handle_transfer_rejected}
use custody_service.Api.Creation.{create_external_transfer}
use custody_service.Api.Internal.{create_internal_transfer}
use custody_service.Requests.{
  Request, complete, cancel, rejected_message, create_external, create_internal, serve_all,
}
use custody_service.Requests.Validity.{IsValid}
use custody_service.Requests.Sequences.{IsSound, serve_all-IsValid}
use custody_service.Tests.Data.{db, world, waiting, custody, taking, payout, move}

abbrev requests : List Request
requests =
    complete 7 "pending" none
    ∷ cancel 8 "pending" "late"
    ∷ rejected_message "reserved" none
    ∷ rejected_message "reserved" none
    ∷ create_external taking custody payout none none
    ∷ create_internal taking move
    ∷ []

-- 25 is paid out; the reserve of 15 is released, and there is none left to be released again; both
-- new transfers reserve 20.
run_requests :
    map {B = ℤ × ℤ}
      (λ (w : Wallet). (w.balance, w.pending_amount))
      (serve_all requests world).committed.wallets
    ≡ (pos 75, pos 20) ∷ (pos 500, pos 20) ∷ []
unfolding serve_all complete_transfer cancel_transfer_endpoint handle_transfer_rejected
    create_external_transfer create_internal_transfer select_and_reserve_hot_wallet ◌+ℤ◌ ◌-ℤ◌
    release_reserve upper new_row reserve_balance
run_requests = refl

-- Of the two wallets neither has 800.
process_queue-Passes_example :
    Passes (length (get_pending_balance_transfers 10 db)) (respond (process_queue 9 10) world)
process_queue-Passes_example =
    process_queue-Passes 9 10 db [] (record { solvent = ground arith; nonneg = ground arith })

process_pending_balance_transfer-retried_example :
    process_pending_balance_transfer 9 waiting world
    ≡ retried 9 waiting world (select_and_reserve_hot_wallet db none "Ethereum" (pos 800))
process_pending_balance_transfer-retried_example =
    process_pending_balance_transfer-retried 9 waiting world

sound : All IsSound requests
sound = (tt, (tt, (tt, (tt, (λ n e. ground arith, (λ n e. ground arith, tt))))))

serve_all-IsValid_example : IsValid (serve_all requests world).committed
serve_all-IsValid_example =
    serve_all-IsValid requests world sound
      (record { solvent = ground arith; nonneg = ground arith })

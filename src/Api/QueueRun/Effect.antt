-- ===== src/Api/QueueRun/Effect.antt =====
-- What a pass over the queue does.
use custody_service.Common.{ℕ, ◌+◌, ◌≡◌, refl, ap, Bool, true, false}
use custody_service.Models.{Transfer}
use custody_service.Ledger.HotWallet.{Selection, selected, short, select_and_reserve_hot_wallet}
use custody_service.Ledger.HotWallet.Reservation.{
  Outcome, selected-reserve_balance, select_and_reserve-Outcome,
}
use custody_service.Ledger.{reserve_balance}
use custody_service.Session.{World, Result, ok, except, pure, ◌>>=◌, ◌>>◌}
use custody_service.Api.Approval.{pending_on}
use custody_service.Transfers.{
  process_pending_balance_transfer, reserve_hot_wallet, update_transfer_with_wallet, settled,
  waiting,
}
use custody_service.Api.Completion.{saved}

-- What a retry does, by what the selection of a wallet gives.
abbrev pub retried : ℕ → Transfer → World → Selection → Result Bool × World
retried now t w (selected r ws) = (
  ok true,
  record w {
    db =
        saved (pending_on now r t)
          (record w.db { wallets = (reserve_balance r.wallet.id t.amount w.db.wallets).0 });
  },
)
retried now t w (short s) =
    (ok false, record w { db = saved (record t { retry_count = t.retry_count + 1 }) w.db })

by_reservation :
    (now : ℕ) (t : Transfer) (w : World) (s : Selection)
    → Outcome w.db t.contract_address t.blockchain t.amount s
    → except
        (do row ← settled s; update_transfer_with_wallet now t row; pure true)
        (waiting (pure tt) t)
        w
      ≡ retried now t w s
unfolding update_transfer_with_wallet
by_reservation now t w (selected r ws) o =
    ap
      (λ xs. (ok true, record w { db = saved (pending_on now r t) (record w.db { wallets = xs }) }))
      (selected-reserve_balance w.db t.contract_address t.blockchain t.amount r ws o)
by_reservation now t w (short s) o = refl

-- A retry of a waiting transfer never raises. Where a HOT wallet is selected, the wallets become
-- those of `reserve_balance` for the amount on this wallet, the transfer's row gets status
-- `pending`, the wallet, its vault, asset and address, and the time of the reservation, and the
-- result is true; otherwise the count of its retries rises by one, nothing else changes, and the
-- result is false.
pub process_pending_balance_transfer-retried :
    (now : ℕ) (t : Transfer) (w : World)
    → process_pending_balance_transfer now t w
      ≡ retried now t w
          (select_and_reserve_hot_wallet w.db t.contract_address t.blockchain t.amount)
unfolding process_pending_balance_transfer reserve_hot_wallet
process_pending_balance_transfer-retried now t w =
    by_reservation now t w _
      (select_and_reserve-Outcome w.db t.contract_address t.blockchain t.amount)

-- ===== src/Api/Leak.antt =====
-- A reservation made at creation, and a transfer that is closed before its approval.
use custody_service.Common.{ℕ, String, ◌≡◌, arith, some, List}
use custody_service.Models.{
  Db, Transfer, TransferStatus, known, is_final, is_cancellable, is_status,
}
use custody_service.Session.{World, Result, ok, respond, idle, Event, Done}
use custody_service.Transfers.{get_transfer_by_request_id}
use custody_service.Api.Lifecycle.{reject_transfer, cancel_transfer_endpoint}
use custody_service.Api.Closing.{cancel_transfer-Closes, reject_transfer-Closes}

-- Whatever wallet a transfer in status `pending_approval` has reserved its amount on: after its
-- cancellation, and after its rejection, every wallet is as before, with the reserve still held,
-- while the request succeeded.
pub closing_keeps_reserve :
    (now : ℕ) (request_id reason : String) (db : Db) (events : List Event) (t : Transfer)
    → get_transfer_by_request_id request_id db ≡ some t
    → t.status ≡ known TransferStatus.pending_approval
    → (let (r, w) = respond (cancel_transfer_endpoint now request_id reason) (idle db events) in
        (r ≡ ok tt) × (w.committed.wallets ≡ db.wallets))
      × (let (r, w) = respond (reject_transfer now request_id reason) (idle db events) in
          (r ≡ ok tt) × (w.committed.wallets ≡ db.wallets))
unfolding is_final is_cancellable is_status
closing_keeps_reserve now request_id reason db events t found status = (
  at_end (cancel_transfer-Closes now request_id reason db events t found) (ground arith),
  at_end (reject_transfer-Closes now request_id reason db events t found) (ground arith),
)
  where
    at_end :
        {a b : Result Done × World}
        → a ≡ b
        → (b.0 ≡ ok tt) × (b.1.committed.wallets ≡ db.wallets)
        → (a.0 ≡ ok tt) × (a.1.committed.wallets ≡ db.wallets)
    at_end e h = rw e h

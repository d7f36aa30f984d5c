-- ===== src/Api/Closing.antt =====
-- `cancel_transfer_endpoint` and `reject_transfer`: what they do to the transfer, to the reserve
-- and to the backend.
use custody_service.Common.{
  append_text, is_filled, ℕ, String, ◌≡◌, arith, none, some, List, [], ◌∷◌, ◌++◌, if◌then◌else◌,
}
use custody_service.Models.{
  Db, Transfer, TransferStatus, Wallet, known, is_final, is_cancellable, is_status,
}
use custody_service.Ledger.{release_reserve}
use custody_service.Session.{ok, err, http, respond, idle, Event, payout_callback, PayoutStatus}
use custody_service.Transfers.{get_transfer_by_request_id, update_transfer_status, cancel_transfer}
use custody_service.Api.Lifecycle.{load, reject_transfer, cancel_transfer_endpoint, not_cancelled}
use custody_service.Api.Completion.{saved}

-- The wallets after `release_if (status == PENDING and wallet_id)`.
abbrev pub released : Transfer → List Wallet → List Wallet
released t ws = elim t.wallet_id [
  | none ↦ ws
  | some i ↦
      if is_status TransferStatus.pending t.status then (release_reserve i t.amount ws).0 else ws
]

abbrev pub callback : Transfer → PayoutStatus → List Event → List Event
callback t status events =
    if t.is_internal then events else events ++ payout_callback t.request_id status none ∷ []

-- The row of a cancelled transfer, and that of a rejected one, whose error stays as it was where the
-- reason is empty.
abbrev pub cancelled_row : ℕ → String → Transfer → Transfer
cancelled_row now reason t = record t {
  status = known TransferStatus.cancelled;
  error_message = some (append_text "Cancelled: " reason);
  completed_at = some now;
}

abbrev pub rejected_row : ℕ → String → Transfer → Transfer
rejected_row now reason t = record t {
  status = known TransferStatus.rejected;
  error_message = if is_filled (some reason) then some reason else t.error_message;
  completed_at = some now;
}

-- For a transfer that is found: if it is cancellable, cancellation succeeds, its row gets status
-- `cancelled`, the reason and the time of completion, an external transfer's cancellation is
-- called back to the backend, and the reserve is released exactly if the status was `pending` and
-- a wallet is set; all of this is committed. If it is not cancellable, the answer is 400 and
-- nothing changes.
pub cancel_transfer-Closes :
    (now : ℕ) (request_id reason : String) (db : Db) (events : List Event) (t : Transfer)
    → get_transfer_by_request_id request_id db ≡ some t
    → respond (cancel_transfer_endpoint now request_id reason) (idle db events) ≡ (
        if is_cancellable t.status
        then (
          ok tt,
          idle
              (saved (cancelled_row now reason t) (record db { wallets = released t db.wallets }))
              (callback t PayoutStatus.cancelled events),
        )
        else (err (http 400), idle db events))
unfolding cancel_transfer_endpoint load cancel_transfer not_cancelled
cancel_transfer-Closes now request_id reason db events t found = ground (arith, found)

-- For a transfer that is found: if it is not final, rejection succeeds, its row gets status
-- `rejected`, the reason if it is not empty and the time of completion, and the reserve is
-- released exactly if the status was `pending` and a wallet is set; all of this is committed. If
-- it is final, the answer is 400 and nothing changes. No message is sent either way.
pub reject_transfer-Closes :
    (now : ℕ) (request_id reason : String) (db : Db) (events : List Event) (t : Transfer)
    → get_transfer_by_request_id request_id db ≡ some t
    → respond (reject_transfer now request_id reason) (idle db events) ≡ (
        if is_final t.status then (err (http 400), idle db events) else (
          ok tt,
          idle
              (saved (rejected_row now reason t) (record db { wallets = released t db.wallets }))
              events,
        ))
unfolding reject_transfer load update_transfer_status
reject_transfer-Closes now request_id reason db events t found = ground (arith, found)

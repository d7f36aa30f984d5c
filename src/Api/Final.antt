-- ===== src/Api/Final.antt =====
-- What the endpoints refuse, and that a transfer is paid out at most once through them.
use custody_service.Common.{ℕ, String, ◌≡◌, refl, true, false, Option, some}
use custody_service.Models.{
  Transfer, TransferStatus, Column, known, other, is_final, is_cancellable, is_status,
}
use custody_service.Session.{World, err, http}
use custody_service.Transfers.{get_transfer_by_request_id}
use custody_service.Api.Lifecycle.{
  load, approve_transfer, reject_transfer, complete_transfer, cancel_transfer_endpoint,
}

-- A final status is neither cancellable nor waiting for an approval.
final_is_closed :
    (c : Column)
    → is_final c ≡ true
    → (is_cancellable c ≡ false) × (is_status TransferStatus.pending_approval c ≡ false)
unfolding is_final is_cancellable is_status
final_is_closed (known TransferStatus.pending_approval) h = cc
final_is_closed (known TransferStatus.pending_balance) h = cc
final_is_closed (known TransferStatus.pending) h = cc
final_is_closed (known TransferStatus.signing) h = cc
final_is_closed (known TransferStatus.broadcasting) h = cc
final_is_closed (known s) h = (refl, refl)
final_is_closed (other s) h = cc

-- A transfer in a final status (completed, rejected, failed, cancelled) is left alone: approval,
-- rejection, completion and cancellation answer 400, change no table, commit nothing and send
-- nothing.
pub final_refused :
    (now : ℕ) (request_id reason : String) (tx_hash : Option String) (w : World) (t : Transfer)
    → get_transfer_by_request_id request_id w.db ≡ some t
    → is_final t.status ≡ true
    → (approve_transfer now request_id w ≡ (err (http 400), w))
      × (reject_transfer now request_id reason w ≡ (err (http 400), w))
      × (complete_transfer now request_id tx_hash w ≡ (err (http 400), w))
      × (cancel_transfer_endpoint now request_id reason w ≡ (err (http 400), w))
unfolding load approve_transfer reject_transfer complete_transfer cancel_transfer_endpoint
final_refused now request_id reason tx_hash w t found final =
    let (not_c, not_a) = final_is_closed t.status final in
    (rw (found, not_a) refl, rw (found, final) refl, rw (found, final) refl, rw (found, not_c) refl)

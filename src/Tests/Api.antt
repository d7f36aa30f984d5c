-- ===== src/Tests/Api.antt =====
-- The endpoints on transfers.
use custody_service.Common.{◌≡◌, refl, none, some, [], if◌then◌else◌}
use custody_service.Models.{TransferStatus, is_status, is_final, is_cancellable}
use custody_service.Session.{ok, err, http, respond, idle, PayoutStatus}
use custody_service.Ledger.{complete_transfer_balance}
use custody_service.Api.Lifecycle.{
  approve_transfer, reject_transfer, complete_transfer, cancel_transfer_endpoint,
}
use custody_service.Api.Final.{final_refused}
use custody_service.Api.Completion.{
  saved, paid_out, completed, complete_transfer-all_or_nothing, complete_transfer-once,
}
use custody_service.Api.Closing.{
  cancelled_row, rejected_row, released, callback, cancel_transfer-Closes, reject_transfer-Closes,
}
use custody_service.Api.Approval.{approved, approve_transfer-Answer}
use custody_service.Api.Leak.{closing_keeps_reserve}
use custody_service.Tests.Data.{db, world, pending, done, fresh, reserved}

final_refused_example :
    (approve_transfer 9 "done" world ≡ (err (http 400), world))
    × (reject_transfer 9 "done" "late" world ≡ (err (http 400), world))
    × (complete_transfer 9 "done" (some "0x1") world ≡ (err (http 400), world))
    × (cancel_transfer_endpoint 9 "done" "late" world ≡ (err (http 400), world))
unfolding is_final
final_refused_example = final_refused 9 "done" "late" (some "0x1") world done refl refl

all_or_nothing_example : respond (complete_transfer 9 "pending" (some "0x1")) world ≡ (
    let (ws, done) = paid_out pending (some 10) db.wallets in
    if done
    then (ok tt, idle (saved (completed 9 (some "0x1") pending) (record db { wallets = ws })) [])
    else (err (http 500), world))
unfolding is_final
all_or_nothing_example =
    complete_transfer-all_or_nothing 9 "pending" (some "0x1") db [] pending refl refl

once_example :
    let w = (respond (complete_transfer 9 "pending" (some "0x1")) world).1 in
    complete_transfer 10 "pending" none w ≡ (err (http 400), w)
unfolding is_final complete_transfer_balance
once_example = complete_transfer-once 9 10 "pending" (some "0x1") none db [] pending refl refl refl

approve_transfer-Answer_example : respond (approve_transfer 9 "fresh") world ≡ (
    if is_status TransferStatus.pending_approval fresh.status
    then approved 9 db [] fresh none
    else (err (http 400), world))
approve_transfer-Answer_example = approve_transfer-Answer 9 "fresh" db [] fresh refl

cancel_transfer-Closes_example : respond (cancel_transfer_endpoint 9 "pending" "changed") world ≡ (
    if is_cancellable pending.status
    then (
      ok tt,
      idle
          (saved
            (cancelled_row 9 "changed" pending)
            (record db { wallets = released pending db.wallets }))
          (callback pending PayoutStatus.cancelled []),
    )
    else (err (http 400), world))
cancel_transfer-Closes_example = cancel_transfer-Closes 9 "pending" "changed" db [] pending refl

reject_transfer-Closes_example : respond (reject_transfer 9 "pending" "risk") world ≡ (
    if is_final pending.status then (err (http 400), world) else (
      ok tt,
      idle
          (saved
            (rejected_row 9 "risk" pending)
            (record db { wallets = released pending db.wallets }))
          [],
    ))
reject_transfer-Closes_example = reject_transfer-Closes 9 "pending" "risk" db [] pending refl

closing_keeps_reserve_example :
    (let (r, w) = respond (cancel_transfer_endpoint 9 "reserved" "changed") world in
      (r ≡ ok tt) × (w.committed.wallets ≡ db.wallets))
    × (let (r, w) = respond (reject_transfer 9 "reserved" "changed") world in
        (r ≡ ok tt) × (w.committed.wallets ≡ db.wallets))
closing_keeps_reserve_example =
    closing_keeps_reserve 9 "reserved" "changed" db [] reserved refl refl

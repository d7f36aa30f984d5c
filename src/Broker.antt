-- ===== src/Broker.antt =====
-- app/broker/consumer.py: the callbacks of the two consumers, for the messages by which the
-- workflow rejects or approves a transfer.
pub mod Redelivery
use custody_service.Common.{
  ℕ, String, Bool, true, false, ◌||◌, not, Option, none, some, is_filled, if◌then◌else◌,
}
use custody_service.Models.{Db, Transfer, TransferStatus, known, is_status}
use custody_service.Session.{
  Action, Done, Error, provider_error, PayoutStatus, pure, raise, or_raise, except, gets, commit,
  ◌>>=◌, ◌>>◌,
}
use custody_service.Transfers.{save, get_transfer_by_request_id, notify_unless_internal, release_if}

-- `body.get("reason", "Rejected by workflow")`, for a reason that is a text or left out.
abbrev reason_or : Option String → String
reason_or none = "Rejected by workflow"
reason_or (some r) = r

abbrev pub with_rejection : Option String → Transfer → Transfer
with_rejection reason t = record t {
  status = known TransferStatus.rejected;
  error_message = some (reason_or reason);
}

abbrev pub reject_found : Option String → Option Transfer → Action Done
reject_found reason none = pure tt
reject_found reason (some t) = do
  release_if true t.wallet_id t.amount
  save (with_rejection reason t)
  commit
  notify_unless_internal t PayoutStatus.rejected none

unfoldable pub handle_transfer_rejected : String → Option String → Action Done
handle_transfer_rejected request_id reason = do
  found ← gets (get_transfer_by_request_id request_id)
  reject_found reason found

-- The message `transfer.approved`. The transaction's body is not looked into: `None` or empty, or
-- something to hand on.
pub record ApprovedMessage : Type 0 where
  pub request_id : String
  pub jwt_token : Option String
  pub api_key : Option String
  pub transaction_body : Option String

abbrev pub is_complete : ApprovedMessage → Bool
is_complete m =
    if is_filled m.jwt_token
    then (if is_filled m.api_key then is_filled m.transaction_body else false)
    else false

abbrev pub may_start : Transfer → Bool
may_start t =
    is_status TransferStatus.pending t.status
    || (is_status TransferStatus.pending_balance t.status
        || is_status TransferStatus.pending_approval t.status)

-- What `create_transaction_with_jwt` answers: the transaction's id, if it has one, or the text of
-- the exception.
pub data Execution : Type 0 where
  created : Option String → Execution
  refused : String → Execution

abbrev pub signing : Transfer → Transfer
signing t = record t { status = known TransferStatus.signing }

abbrev pub broadcast : Option String → Transfer → Transfer
broadcast i t = record t { provider_tx_id = i; status = known TransferStatus.broadcasting }

abbrev pub with_error : String → Transfer → Transfer
with_error e t = record t { status = known TransferStatus.failed; error_message = some e }

abbrev pub executed : Execution → Transfer → Action Done
executed (created i) t = do save (broadcast i t); commit
executed (refused e) t = do
  save (with_error e t)
  commit
  notify_unless_internal t PayoutStatus.failed none

abbrev pub start : (ApprovedMessage → Execution) → ApprovedMessage → Transfer → Action Done
start execute m t = do save (signing t); commit; executed (execute m) (signing t)

abbrev pub approve_found :
    (ApprovedMessage → Execution) → ApprovedMessage → Option Transfer → Action Done
approve_found execute m none = pure tt
approve_found execute m (some t) = if may_start t then start execute m t else pure tt

unfoldable pub handle_transfer_approved :
    (ApprovedMessage → Execution) → ApprovedMessage → Action Done
unfolding is_status
handle_transfer_approved execute m =
    if is_complete m
    then (do found ← gets (get_transfer_by_request_id m.request_id); approve_found execute m found)
    else pure tt

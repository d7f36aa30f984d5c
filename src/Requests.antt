-- ===== src/Requests.antt =====
-- The requests and messages that make a transfer or end in a change of its status, one after
-- another, each in a session of its own: the endpoints of app/api/transfer.py and the two messages
-- of app/broker/consumer.py; and the pass of app/services/balance_sync.py over the queue.
pub mod Validity
pub mod Each
pub mod Queue
pub mod Steps
pub mod Creating
pub mod Sending
pub mod Waiting
pub mod Sequences
use custody_service.Common.{ℕ, String, Option, List, [], ◌∷◌}
use custody_service.Models.{Db}
use custody_service.Outside.{Outside}
use custody_service.Custody.{Custody}
use custody_service.Session.{Action, Event, World, idle, respond}
use custody_service.Api.Lifecycle.{
  approve_transfer, reject_transfer, update_transfer_signing, complete_transfer,
  cancel_transfer_endpoint,
}
use custody_service.Api.QueueRun.{process_queue}
use custody_service.Api.Direct.{ExternalTransferRequest}
use custody_service.Api.Creation.{create_external_transfer}
use custody_service.Api.Internal.{InternalTransferRequest, create_internal_transfer}
use custody_service.BalanceSync.Waiting.{_process_pending_queue_after_sync}
use custody_service.Broker.{
  ApprovedMessage, Execution, handle_transfer_rejected, handle_transfer_approved,
}

-- A request with its arguments and the time at which it is served; for an approved transfer's
-- message, what the provider will answer.
pub data Request : Type 0 where
  approve : ℕ → String → Request
  reject : ℕ → String → String → Request
  sign : ℕ → String → String → Request
  complete : ℕ → String → Option String → Request
  cancel : ℕ → String → String → Request
  process : ℕ → ℕ → Request
  rejected_message : String → Option String → Request
  approved_message : (ApprovedMessage → Execution) → ApprovedMessage → Request
  create_external : Outside → Custody → ExternalTransferRequest → Option ℕ → Option ℕ → Request
  create_internal : Outside → InternalTransferRequest → Request
  retry_waiting : Outside → Request

-- The world after a request.
unfoldable pub world_after : Request → World → World
world_after (approve now i) w = (respond (approve_transfer now i) w).1
world_after (reject now i reason) w = (respond (reject_transfer now i reason) w).1
world_after (sign now i tx) w = (respond (update_transfer_signing now i tx) w).1
world_after (complete now i hash) w = (respond (complete_transfer now i hash) w).1
world_after (cancel now i reason) w = (respond (cancel_transfer_endpoint now i reason) w).1
world_after (process now limit) w = (respond (process_queue now limit) w).1
world_after (rejected_message i reason) w = (respond (handle_transfer_rejected i reason) w).1
world_after (approved_message execute m) w = (respond (handle_transfer_approved execute m) w).1
world_after (create_external o c q i j) w = (respond (create_external_transfer o c q i j) w).1
world_after (create_internal o q) w = (respond (create_internal_transfer o q) w).1
world_after (retry_waiting o) w = (respond (_process_pending_queue_after_sync o) w).1

-- Requests one after another. The next one sees what was committed.
unfoldable pub serve_all : List Request → World → World
unfolding world_after
serve_all [] w = w
serve_all (r ∷ rs) w = let v = world_after r (idle w.committed w.sent) in serve_all rs v

-- ===== src/Api/QueueRun.antt =====
-- app/api/transfer.py, `process_queue`: a pass over the transfers that wait for a balance.
pub mod Effect
use custody_service.Common.{
  ℕ, Bool, true, false, Option, none, some, List, [], ◌∷◌, ◌+◌, ◌-◌, length,
}
use custody_service.Models.{Transfer}
use custody_service.Session.{Action, Done, transfer_created, pure, gets, send, commit, ◌>>=◌, ◌>>◌}
use custody_service.Transfers.{get_transfer_by_id, process_pending_balance_transfer}
use custody_service.Transfers.Queue.{get_pending_balance_transfers}
use custody_service.Api.Responses.{created_message}

-- What the endpoint answers. `len(transfers) - processed` is never negative there.
pub record QueueResult : Type 0 where
  pub processed : ℕ
  pub failed : ℕ
  pub remaining : ℕ

abbrev pub announce : Option Transfer → Action Done
announce none = pure tt
announce (some t) = do m ← gets (λ db. created_message db t); send (transfer_created m)

-- The object holds what its row does once the reservation has been written to it.
abbrev pub announce_if : Bool → ℕ → Action Done
announce_if false transfer_id = pure tt
announce_if true transfer_id = do found ← gets (get_transfer_by_id transfer_id); announce found

-- One round of the loop.
unfoldable pub queue_round : ℕ → Transfer → Action Bool
queue_round now t = do
  success ← process_pending_balance_transfer now t
  announce_if success t.id
  pure success

-- `processed += 1` or `failed += 1`
abbrev pub count : Bool → ℕ × ℕ → ℕ × ℕ
count true (processed, failed) = (processed + 1, failed)
count false (processed, failed) = (processed, failed + 1)

unfoldable pub queue_rounds : ℕ → List Transfer → ℕ × ℕ → Action (ℕ × ℕ)
unfolding queue_round
queue_rounds now [] counts = pure counts
queue_rounds now (t ∷ ts) counts = do
  success ← queue_round now t
  queue_rounds now ts (count success counts)

abbrev pub queue_result : ℕ → ℕ × ℕ → QueueResult
queue_result listed (processed, failed) = record {
  processed = processed;
  failed = failed;
  remaining = listed - processed;
}

unfoldable pub process_queue : ℕ → ℕ → Action QueueResult
unfolding queue_rounds get_pending_balance_transfers
process_queue now limit = do
  ts ← gets (get_pending_balance_transfers limit)
  counts ← queue_rounds now ts (0, 0)
  commit
  pure (queue_result (length ts) counts)

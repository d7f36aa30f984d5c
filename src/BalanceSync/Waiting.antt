-- ===== src/BalanceSync/Waiting.antt =====
-- app/services/balance_sync.py, `_process_pending_queue_after_sync`.
use custody_service.Common.{ℕ, Bool, true, false, Option, none, some, List, [], ◌∷◌, ◌+◌, String}
use custody_service.Models.{Asset, Transfer}
use custody_service.Outside.{Outside}
use custody_service.Fireblocks.Resolver.{resolve, look_up}
use custody_service.Session.{
  Action, CreatedMessage, transfer_created, provider_error, runtime_error, raise, pure, gets, send,
  commit, rollback, or_raise, except, ◌>>=◌, ◌>>◌,
}
use custody_service.Transfers.{get_transfer_by_id, process_pending_balance_transfer}
use custody_service.Transfers.Queue.{get_pending_balance_transfers}
use custody_service.Api.Responses.{created_message, asset_of}

-- `resolve_fireblocks_asset`, for the assets that the provider lists, `none` where that raises. The
-- resolver's cache is left out.
abbrev pub resolve_fireblocks_asset : Outside → Asset → Option (Option String)
resolve_fireblocks_asset o a = elim o.supported_assets [
  | none ↦ none
  | some fs ↦ some (look_up fs fs (resolve a))
]

-- The id in the message, where the transfer has an asset.
abbrev pub fireblocks_id : Outside → Option Asset → Action (Option String)
fireblocks_id o none = pure none
fireblocks_id o (some a) = or_raise (resolve_fireblocks_asset o a) provider_error

abbrev pub with_fireblocks_id : Option String → CreatedMessage → CreatedMessage
with_fireblocks_id i m = record m { fireblocks_asset_id = i }

-- The update is committed before the message is published.
abbrev pub publish : Outside → Option Transfer → Action Bool
publish o none = pure true
publish o (some t) = do
  i ← gets (λ db. asset_of db t.asset_id) >>= fireblocks_id o
  m ← gets (λ db. created_message db t)
  commit
  send (transfer_created (with_fireblocks_id i m))
  pure true

-- The object holds what its row does once the reservation has been written to it.
abbrev pub publish_if : Outside → Bool → ℕ → Action Bool
publish_if o false transfer_id = pure false
publish_if o true transfer_id = gets (get_transfer_by_id transfer_id) >>= publish o

-- `try: …; processed += 1`, `except Exception: await db.rollback()`. The rollback expires the loaded
-- rows, so that the log line that follows it, which reads `transfer.id`, raises: the pass ends there.
unfoldable pub sync_round : Outside → Transfer → Action Bool
sync_round o t =
    except (process_pending_balance_transfer o.now t >>= λ success. publish_if o success t.id)
      (λ e. rollback >> raise runtime_error)

abbrev pub one_more : Bool → ℕ → ℕ
one_more true n = n + 1
one_more false n = n

unfoldable pub sync_rounds : Outside → List Transfer → ℕ → Action ℕ
unfolding sync_round
sync_rounds o [] processed = pure processed
sync_rounds o (t ∷ ts) processed = do
  success ← sync_round o t
  sync_rounds o ts (one_more success processed)

unfoldable pub _process_pending_queue_after_sync : Outside → Action ℕ
unfolding sync_rounds get_pending_balance_transfers
_process_pending_queue_after_sync o = do
  ts ← gets (get_pending_balance_transfers 20)
  sync_rounds o ts 0

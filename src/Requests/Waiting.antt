-- ===== src/Requests/Waiting.antt =====
-- The pass over the queue after a synchronisation keeps the tables valid.
use custody_service.Common.{ℕ, List, [], ◌∷◌, pos, ◌≤ℤ◌, All}
use custody_service.Models.{Transfer}
use custody_service.Outside.{Outside}
use custody_service.Session.{Error, pure, shortage}
use custody_service.Session.Keeping.{IsKeeping, Holds, keeping, bind-IsKeeping}
use custody_service.Transfers.{
  process_pending_balance_transfer, update_transfer_with_wallet, waiting,
}
use custody_service.Transfers.Queue.{get_pending_balance_transfers}
use custody_service.BalanceSync.Waiting.{
  sync_round, sync_rounds, one_more, _process_pending_queue_after_sync,
}
use custody_service.BalanceSync.Publishing.{publish_if-IsKeeping}
use custody_service.Requests.Validity.{IsValid}
use custody_service.Requests.Steps.{save-IsKeeping, reserve_hot_wallet-IsKeeping}
use custody_service.Requests.Queue.{listed_nonneg}

module _ (o : Outside) where
  waiting-IsKeeping :
      (t : Transfer) (e : Error) → pos 0 ≤ℤ t.amount → IsKeeping IsValid (waiting (pure tt) t e)
  waiting-IsKeeping t (shortage s) n = search (keeping, save-IsKeeping) depth 8
  waiting-IsKeeping t e n = search keeping

  process-IsKeeping :
      (t : Transfer)
      → pos 0 ≤ℤ t.amount
      → IsKeeping IsValid (process_pending_balance_transfer o.now t)
  unfolding process_pending_balance_transfer update_transfer_with_wallet
  process-IsKeeping t n =
      search (keeping, reserve_hot_wallet-IsKeeping, save-IsKeeping, waiting-IsKeeping, n) depth 16

  sync_round-IsKeeping : (t : Transfer) → pos 0 ≤ℤ t.amount → IsKeeping IsValid (sync_round o t)
  unfolding sync_round
  sync_round-IsKeeping t n =
      search (keeping, process-IsKeeping, publish_if-IsKeeping IsValid o) depth 12

  sync_rounds-IsKeeping :
      (ts : List Transfer) (k : ℕ)
      → All (λ (t : Transfer). pos 0 ≤ℤ t.amount) ts
      → IsKeeping IsValid (sync_rounds o ts k)
  unfolding sync_rounds
  sync_rounds-IsKeeping [] k n = search keeping
  sync_rounds-IsKeeping (t ∷ ts) k n =
      bind-IsKeeping IsValid _ _ (sync_round-IsKeeping t n.0)
        (λ b. sync_rounds-IsKeeping ts (one_more b k) n.1)

  pub _process_pending_queue_after_sync-IsKeeping :
      IsKeeping IsValid (_process_pending_queue_after_sync o)
  unfolding _process_pending_queue_after_sync IsKeeping Holds
  _process_pending_queue_after_sync-IsKeeping w h =
      sync_rounds-IsKeeping (get_pending_balance_transfers 20 w.db) 0 (listed_nonneg 20 w.db h.0) w
        h

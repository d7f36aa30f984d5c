-- ===== src/Requests/Sequences.antt =====
-- What every sequence of requests keeps, whatever order they come in.
use custody_service.Common.{sym, subst, List, [], ◌∷◌, All}
use custody_service.Models.{Db}
use custody_service.Session.{World, Action, Event, idle, respond}
use custody_service.Session.Keeping.{IsKeeping, Holds}
use custody_service.Api.Creation.{create_external_transfer}
use custody_service.Api.Internal.{create_internal_transfer}
use custody_service.Requests.{
  Request, approve, reject, sign, complete, cancel, process, rejected_message, approved_message,
  create_external, create_internal, retry_waiting, world_after, serve_all,
}
use custody_service.Requests.Queue.{process_queue-Passes}
use custody_service.Requests.Validity.{IsValid}
use custody_service.Requests.Creating.{IsSoundAmount}
use custody_service.Requests.Sending.{
  create_external_transfer-IsKeeping, create_internal_transfer-IsKeeping,
}
use custody_service.BalanceSync.Waiting.{_process_pending_queue_after_sync}
use custody_service.Requests.Waiting.{_process_pending_queue_after_sync-IsKeeping}
use custody_service.Requests.Each.{
  approve-valid, reject-valid, sign-valid, complete-valid, cancel-valid, rejected_message-valid,
  approved_message-valid,
}

-- A creation's amount is not negative; the service does not check it. The other requests take any
-- argument.
abbrev pub IsSound : Request → Type 0
IsSound (create_external o c q i j) = IsSoundAmount o q.amount
IsSound (create_internal o q) = IsSoundAmount o q.amount
IsSound _ = Unit

responded :
    {A : Type 0} (m : Action A) (db : Db) (es : List Event)
    → IsKeeping IsValid m
    → IsValid db
    → IsValid (respond m (idle db es)).1.committed
unfolding IsKeeping Holds
responded m db es k v = (k (idle db es) (v, v)).1

world_after-IsValid :
    (r : Request) (db : Db) (es : List Event)
    → IsSound r
    → IsValid db
    → IsValid (world_after r (idle db es)).committed
unfolding world_after
world_after-IsValid (approve now i) db es s v = approve-valid db es v now i
world_after-IsValid (reject now i reason) db es s v = reject-valid db es v now i reason
world_after-IsValid (sign now i tx) db es s v = sign-valid db es v now i tx
world_after-IsValid (complete now i hash) db es s v = complete-valid db es v now i hash
world_after-IsValid (cancel now i reason) db es s v = cancel-valid db es v now i reason
world_after-IsValid (process now limit) db es s v =
    let p = process_queue-Passes now limit db es v in
    subst (λ r. IsValid r.1.committed) (sym p.answers) p.valid
world_after-IsValid (rejected_message i reason) db es s v = rejected_message-valid db es v i reason
world_after-IsValid (approved_message execute m) db es s v =
    approved_message-valid db es v execute m
world_after-IsValid (create_external o c q i j) db es s v =
    responded (create_external_transfer o c q i j) db es
      (create_external_transfer-IsKeeping o q s c i j) v
world_after-IsValid (create_internal o q) db es s v =
    responded (create_internal_transfer o q) db es (create_internal_transfer-IsKeeping o q s) v
world_after-IsValid (retry_waiting o) db es s v =
    responded (_process_pending_queue_after_sync o) db es
      (_process_pending_queue_after_sync-IsKeeping o) v

-- Whatever requests come, in whatever order, repeated or not, with whatever answers of the
-- provider: creations of external and internal transfers, approvals, rejections, signings,
-- completions, cancellations and passes over the queue through the endpoints, both messages of
-- the workflow, and the passes over the queue that follow a synchronisation of the balances. If at the start every wallet's reserve lies between zero and its balance and no
-- transfer's amount is negative, and no creation asks for a negative amount, then so it is in the
-- tables committed at the end.
pub serve_all-IsValid :
    (rs : List Request) (w : World)
    → All IsSound rs
    → IsValid w.committed
    → IsValid (serve_all rs w).committed
unfolding serve_all
serve_all-IsValid [] w s v = v
serve_all-IsValid (r ∷ rs) w s v =
    serve_all-IsValid rs (world_after r (idle w.committed w.sent)) s.1
      (world_after-IsValid r w.committed w.sent s.0 v)

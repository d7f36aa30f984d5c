-- ===== src/Requests/Queue.antt =====
-- The pass over the queue: it always ends with an answer, and keeps what the requests keep.
use custody_service.Common.{
  ℕ, zero, suc, ◌≡◌, refl, Bool, true, false, List, [], ◌∷◌, ◌++◌, ◌+◌, length, take, select, arith,
  pos, ◌≤ℤ◌, All, Bool-cases, inl, inr, Option-cases,
}
use custody_service.Models.{Db, Transfer}
use custody_service.Ledger.Solvency.{reserving, execute-IsSolvent, execute}
use custody_service.Ledger.HotWallet.{Selection, selected, short}
use custody_service.Ledger.HotWallet.Reservation.{select_and_reserve-Outcome, Outcome}
use custody_service.Session.{World, Result, ok, idle, respond, Event, transfer_created}
use custody_service.Api.Responses.{created_message}
use custody_service.Transfers.{get_transfer_by_id}
use custody_service.Transfers.Queue.{waits, waiting_by_time, by_time, get_pending_balance_transfers}
use custody_service.Transfers.Queue.Order.{All-insert_by_time}
use custody_service.Api.QueueRun.{
  QueueResult, announce_if, queue_round, count, queue_rounds, queue_result, process_queue,
}
use custody_service.Api.QueueRun.Effect.{retried, process_pending_balance_transfer-retried}
use custody_service.Requests.Validity.{IsValid, saved-IsValid}

-- The action has ended with a value, in a world whose tables are valid.
pub record Ends {A : Type 0} (r : Result A × World) : Type 0 where
  pub value : A
  pub world : World
  pub ends : r ≡ (ok value, world)
  pub valid : IsValid world.db

retried-Ends :
    (now : ℕ) (t : Transfer) (w : World)
    → pos 0 ≤ℤ t.amount
    → IsValid w.db
    → (s : Selection) → Outcome w.db t.contract_address t.blockchain t.amount s
    → Ends (retried now t w s)
unfolding execute
retried-Ends now t w n v (selected r ws) o =
    let kept = execute-IsSolvent (reserving r.wallet.id t.amount) w.db.wallets n v.solvent in
    record { value = true; world = _; ends = refl; valid = saved-IsValid _ _ w.db n kept v }
retried-Ends now t w n v (short s) o = record {
  value = false;
  world = _;
  ends = refl;
  valid = saved-IsValid _ w.db.wallets w.db n v.solvent v;
}

announced : (b : Bool) (i : ℕ) (w : World) → IsValid w.db → Ends (announce_if b i w)
announced false i w v = record { value = tt; world = w; ends = refl; valid = v }
announced true i w v = elim (Option-cases (get_transfer_by_id i w.db)) [
  | inl e ↦ record { value = tt; world = w; ends = rw e refl; valid = v }
  | inr (t, e) ↦ record {
    value = tt;
    world = record w { sent = w.sent ++ transfer_created (created_message w.db t) ∷ [] };
    ends = rw e refl;
    valid = v;
  }
]

queue_round-Ends :
    (now : ℕ) (t : Transfer) (w : World)
    → pos 0 ≤ℤ t.amount
    → IsValid w.db
    → Ends (queue_round now t w)
unfolding queue_round
queue_round-Ends now t w n v =
    let e =
      retried-Ends now t w n v _
        (select_and_reserve-Outcome w.db t.contract_address t.blockchain t.amount) in
    let f = announced e.value t.id e.world e.valid in
    record {
      value = e.value;
      world = f.world;
      ends = rw (process_pending_balance_transfer-retried now t w, e.ends, f.ends) refl;
      valid = f.valid;
    }

-- Each of the transfers is counted once.
pub record Tallies (listed : ℕ) (c : ℕ × ℕ) (r : Result (ℕ × ℕ) × World) : Type 0 where
  pub counts : ℕ × ℕ
  pub world : World
  pub ends : r ≡ (ok counts, world)
  pub valid : IsValid world.db
  pub counted : counts.0 + counts.1 ≡ listed + c.0 + c.1

count-sum : (b : Bool) (c : ℕ × ℕ) → (count b c).0 + (count b c).1 ≡ c.0 + c.1 + 1
count-sum true c = omega arith
count-sum false c = omega arith

queue_rounds-Tallies :
    (now : ℕ) (ts : List Transfer) (c : ℕ × ℕ) (w : World)
    → All (λ (t : Transfer). pos 0 ≤ℤ t.amount) ts
    → IsValid w.db
    → Tallies (length ts) c (queue_rounds now ts c w)
unfolding queue_rounds
queue_rounds-Tallies now [] c w n v = record {
  counts = c;
  world = w;
  ends = refl;
  valid = v;
  counted = omega arith;
}
queue_rounds-Tallies now (t ∷ ts) c w n v =
    let e = queue_round-Ends now t w n.0 v in
    let f = queue_rounds-Tallies now ts (count e.value c) e.world n.1 e.valid in
    record {
      counts = f.counts;
      world = f.world;
      ends = rw e.ends f.ends;
      valid = f.valid;
      counted = omega (arith, f.counted, count-sum e.value c);
    }

All-take : (P : Transfer → Type 0) (n : ℕ) (ts : List Transfer) → All P ts → All P (take n ts)
All-take P zero ts a = tt
All-take P (suc n) [] a = tt
All-take P (suc n) (t ∷ ts) a = (a.0, All-take P n ts a.1)

All-by_time : (P : Transfer → Type 0) (ts : List Transfer) → All P ts → All P (by_time ts)
unfolding by_time
All-by_time P [] a = tt
All-by_time P (t ∷ ts) a = All-insert_by_time P t (by_time ts) a.0 (All-by_time P ts a.1)

All-waits : (P : Transfer → Type 0) (ts : List Transfer) → All P ts → All P (select waits ts)
All-waits P [] a = tt
All-waits P (t ∷ ts) a = elim (Bool-cases (waits t)) [
  | inl e ↦ rw e (a.0, All-waits P ts a.1)
  | inr e ↦ rw e (All-waits P ts a.1)
]

pub listed_nonneg :
    (limit : ℕ) (db : Db)
    → IsValid db
    → All (λ (t : Transfer). pos 0 ≤ℤ t.amount) (get_pending_balance_transfers limit db)
unfolding get_pending_balance_transfers waiting_by_time
listed_nonneg limit db v = All-take _ limit _ (All-by_time _ _ (All-waits _ db.transfers v.nonneg))

-- The answer of the pass.
pub record Passes (listed : ℕ) (r : Result QueueResult × World) : Type 0 where
  pub answer : QueueResult
  pub world : World
  pub answers : r ≡ (ok answer, world)
  pub counted : answer.processed + answer.failed ≡ listed
  pub remaining : answer.remaining ≡ answer.failed
  pub valid : IsValid world.committed

-- If at the start every wallet's reserve lies between zero and its balance and no transfer's
-- amount is negative: the pass over the queue ends with an answer and no exception; each of the
-- listed transfers, the oldest waiting ones up to the limit, is counted as processed or as failed,
-- and as many remain as failed; and in the committed tables every reserve still lies between zero
-- and its wallet's balance, and no amount is negative.
pub process_queue-Passes :
    (now limit : ℕ) (db : Db) (es : List Event)
    → IsValid db
    → Passes
        (length (get_pending_balance_transfers limit db))
        (respond (process_queue now limit) (idle db es))
unfolding process_queue
process_queue-Passes now limit db es v =
    let ts = get_pending_balance_transfers limit db in
    let f = queue_rounds-Tallies now ts (0, 0) (idle db es) (listed_nonneg limit db v) v in
    record {
      answer = queue_result (length ts) f.counts;
      world = record f.world { committed = f.world.db };
      answers = rw f.ends refl;
      counted = omega (arith, f.counted);
      remaining = omega (arith, f.counted);
      valid = f.valid;
    }

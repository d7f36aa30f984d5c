-- ===== src/Transfers/Queue/Order.antt =====
-- The order of the queue: every waiting transfer once, the oldest first.
use mathlib.Core.List.{Perm}
use mathlib.Core.List.Perm
use custody_service.Common.{
  ◌≤◌, arith, List, [], ◌∷◌, All, All-map, select, leb, Bool-cases, inl, inr,
}
use custody_service.Models.{Transfer, Db}
use custody_service.Transfers.Queue.{insert_by_time, by_time, waiting_by_time, waits}

abbrev pub IsSorted : List Transfer → Type 0
IsSorted [] = Unit
IsSorted (t ∷ ts) = All (λ u. t.created_at ≤ u.created_at) ts × IsSorted ts

insert_by_time-perm : (t : Transfer) (ts : List Transfer) → Perm (insert_by_time t ts) (t ∷ ts)
unfolding insert_by_time
insert_by_time-perm t [] = Perm.refl _
insert_by_time-perm t (u ∷ us) = elim (Bool-cases (leb t.created_at u.created_at)) [
  | inl e ↦ rw e (Perm.refl _)
  | inr e ↦ rw e (Perm.trans (Perm.cons u (insert_by_time-perm t us)) (Perm.swap t u us))
]

by_time-perm : (ts : List Transfer) → Perm (by_time ts) ts
unfolding by_time
by_time-perm [] = Perm.refl _
by_time-perm (t ∷ ts) =
    Perm.trans (insert_by_time-perm t (by_time ts)) (Perm.cons t (by_time-perm ts))

pub All-insert_by_time :
    (P : Transfer → Type 0) (t : Transfer) (ts : List Transfer)
    → P t
    → All P ts
    → All P (insert_by_time t ts)
unfolding insert_by_time
All-insert_by_time P t [] h a = (h, tt)
All-insert_by_time P t (u ∷ us) h a = elim (Bool-cases (leb t.created_at u.created_at)) [
  | inl e ↦ rw e (h, a)
  | inr e ↦ rw e (a.0, All-insert_by_time P t us h a.1)
]

insert_by_time-IsSorted :
    (t : Transfer) (ts : List Transfer) → IsSorted ts → IsSorted (insert_by_time t ts)
unfolding insert_by_time
insert_by_time-IsSorted t [] s = (tt, tt)
insert_by_time-IsSorted t (u ∷ us) s = elim (Bool-cases (leb t.created_at u.created_at)) [
  | inl e ↦
      let first : t.created_at ≤ u.created_at = ground arith in
      rw e (
        (
          first,
          All-map (λ (v : Transfer). u.created_at ≤ v.created_at) (λ v. t.created_at ≤ v.created_at)
              (λ v h. omega arith) us s.0,
        ),
        s,
      )
  | inr e ↦
      let after : u.created_at ≤ t.created_at = ground arith in
      rw e (
        All-insert_by_time (λ v. u.created_at ≤ v.created_at) t us after s.0,
        insert_by_time-IsSorted t us s.1,
      )
]

by_time-IsSorted : (ts : List Transfer) → IsSorted (by_time ts)
unfolding by_time
by_time-IsSorted [] = tt
by_time-IsSorted (t ∷ ts) = insert_by_time-IsSorted t (by_time ts) (by_time-IsSorted ts)

-- The queue lists every transfer in status `pending_balance` as often as the table does, and
-- nothing else, and none is created after one that stands behind it.
pub waiting_by_time-Perm :
    (db : Db)
    → Perm (waiting_by_time db) (select waits db.transfers) × IsSorted (waiting_by_time db)
unfolding waiting_by_time
waiting_by_time-Perm db =
    (by_time-perm (select waits db.transfers), by_time-IsSorted (select waits db.transfers))

-- ===== src/Webhook/Status.antt =====
-- A provider's status moves a withdrawal's transfer on, and is told to the backend for a deposit;
-- the two readings of it agree.
use custody_service.Common.{
  String, ◌≡◌, refl, Bool, true, false, ◌||◌, inl, inr, ◌⊎◌, Bool-cases, text_eq, text_eq_iff,
  subst, sym, arith,
}
use custody_service.Models.{InvoiceStatus}
use custody_service.Webhook.Payload.{is_failure}
use custody_service.Webhook.Outgoing.{is_signing}
use custody_service.Webhook.Amounts.{map_fireblocks_to_invoice_status}
use custody_service.Webhook.Moves.{Move, fail, complete, broadcast, sign, stay, move_of}

-- The invoice statuses that go with a move of the transfer.
abbrev pub agrees : Move → InvoiceStatus → Bool
agrees fail InvoiceStatus.canceled = true
agrees fail InvoiceStatus.failed = true
agrees fail InvoiceStatus.timeout = true
agrees fail _ = false
agrees complete InvoiceStatus.paid = true
agrees complete _ = false
agrees broadcast InvoiceStatus.pending = true
agrees broadcast _ = false
agrees sign InvoiceStatus.pending = true
agrees sign _ = false
agrees stay _ = true

abbrev Agrees : String → Type 0
Agrees s = agrees (move_of s) (map_fireblocks_to_invoice_status s) ≡ true

-- At one status that is asked for by name.
at_name : (s k : String) → text_eq s k ≡ true → Agrees k → Agrees s
at_name s k e a = subst Agrees (sym ((text_eq_iff s k).0 e)) a

or_else : (a b : Bool) → (a || b) ≡ true → (a ≡ true) ⊎ (b ≡ true)
or_else a b h = ground arith

failure-Agrees : (s : String) → is_failure s ≡ true → Agrees s
unfolding is_failure move_of map_fireblocks_to_invoice_status
failure-Agrees s h = elim (or_else _ _ h) [
  | inl e ↦ at_name s "REJECTED" e refl
  | inr h1 ↦ elim (or_else _ _ h1) [
    | inl e ↦ at_name s "BLOCKED" e refl
    | inr h2 ↦ elim (or_else _ _ h2) [
      | inl e ↦ at_name s "FAILED" e refl
      | inr h3 ↦ elim (or_else _ _ h3) [
        | inl e ↦ at_name s "CANCELLED" e refl
        | inr e ↦ at_name s "TIMEOUT" e refl
      ]
    ]
  ]
]

signing-Agrees : (s : String) → is_signing s ≡ true → Agrees s
unfolding is_failure move_of map_fireblocks_to_invoice_status
signing-Agrees s h = elim (or_else _ _ h) [
  | inl e ↦ at_name s "PENDING_SIGNATURE" e refl
  | inr h1 ↦ elim (or_else _ _ h1) [
    | inl e ↦ at_name s "QUEUED" e refl
    | inr e ↦ at_name s "PENDING_AUTHORIZATION" e refl
  ]
]

-- For every text: a status that makes a withdrawal's transfer `failed` is told to the backend as
-- canceled, failed or timeout, the one that completes it as paid, and those that make it
-- `broadcasting` or `signing` as pending.
pub move_of-agrees : (s : String) → agrees (move_of s) (map_fireblocks_to_invoice_status s) ≡ true
unfolding move_of map_fireblocks_to_invoice_status is_failure
move_of-agrees s = elim (Bool-cases (is_failure s)) [
  | inl e ↦ failure-Agrees s e
  | inr not_failure ↦ elim (Bool-cases (text_eq s "COMPLETED")) [
    | inl e ↦ at_name s "COMPLETED" e refl
    | inr not_completed ↦ elim (Bool-cases (text_eq s "BROADCASTING")) [
      | inl e ↦ at_name s "BROADCASTING" e refl
      | inr not_broadcast ↦ elim (Bool-cases (is_signing s)) [
        | inl e ↦ signing-Agrees s e
        | inr not_signing ↦ rw (not_failure, not_completed, not_broadcast, not_signing) refl
      ]
    ]
  ]
]

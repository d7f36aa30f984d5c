-- ===== src/Broker/Redelivery.antt =====
-- What the consumers' callbacks do, and what a message that is delivered again does.
use custody_service.Common.{
  ℕ, String, ◌≡◌, refl, true, arith, Option, none, some, List, [], ◌∷◌, ℤ, ◌==◌, update_where, Bool,
  ◌||◌, text_eq, Bool-cases, inl, inr, find-test, find-update_where, ==_refl, ◌∙◌, ap,
  if◌then◌else◌,
}
use custody_service.Models.{Db, Transfer, TransferStatus, Wallet, known, is_status}
use custody_service.Ledger.{release_reserve}
use custody_service.Session.{ok, respond, idle, Event, PayoutStatus, commit, ◌>>◌}
use custody_service.Transfers.{get_transfer_by_request_id, save}
use custody_service.Api.Completion.{saved}
use custody_service.Api.Closing.{callback}
use custody_service.Broker.{
  handle_transfer_rejected, ApprovedMessage, Execution, created, refused, handle_transfer_approved,
  executed, is_complete, signing, broadcast, with_error,
}

-- The wallets after a release, whatever the status of the transfer.
abbrev pub freed : Option ℕ → ℤ → List Wallet → List Wallet
freed none amount ws = ws
freed (some i) amount ws = (release_reserve i amount ws).0

-- The reason that is stored, and the row of a rejected transfer.
abbrev pub reason_given : Option String → String
reason_given none = "Rejected by workflow"
reason_given (some r) = r

abbrev pub rejected_row : Option String → Transfer → Transfer
rejected_row reason t = record t {
  status = known TransferStatus.rejected;
  error_message = some (reason_given reason);
}

-- For a transfer that is found, in whatever status: the message succeeds, `release_reserve` is run
-- for the amount on its wallet if it has one, its row gets status `rejected` and
-- the message's reason, or "Rejected by workflow" if it has none, this
-- is committed, and an external transfer's rejection is called back to the backend.
pub handle_transfer_rejected-Rejects :
    (request_id : String) (reason : Option String) (db : Db) (events : List Event) (t : Transfer)
    → get_transfer_by_request_id request_id db ≡ some t
    → respond (handle_transfer_rejected request_id reason) (idle db events) ≡ (
      ok tt,
      idle
          (saved
            (rejected_row reason t)
            (record db { wallets = freed t.wallet_id t.amount db.wallets }))
          (callback t PayoutStatus.rejected events),
    )
unfolding handle_transfer_rejected
handle_transfer_rejected-Rejects request_id none db events t found = ground (arith, found)
handle_transfer_rejected-Rejects request_id (some r) db events t found = ground (arith, found)

-- The row, and the messages sent, once the transaction has been attempted.
abbrev pub attempted : Execution → Transfer → Transfer
attempted (created i) t = record t {
  provider_tx_id = i;
  status = known TransferStatus.broadcasting;
}
attempted (refused e) t = record t { status = known TransferStatus.failed; error_message = some e }

-- The statuses in which a transaction is attempted.
abbrev pub is_open : Transfer → Bool
is_open t =
    is_status TransferStatus.pending t.status
    || (is_status TransferStatus.pending_balance t.status
        || is_status TransferStatus.pending_approval t.status)

abbrev pub announced : Execution → Transfer → List Event → List Event
announced (created i) t events = events
announced (refused e) t events = callback t PayoutStatus.failed events

rejected_found :
    (request_id : String) (reason : Option String) (db : Db) (ws : List Wallet) (t : Transfer)
    → get_transfer_by_request_id request_id db ≡ some t
    → get_transfer_by_request_id request_id
        (saved (rejected_row reason t) (record db { wallets = ws }))
      ≡ some (rejected_row reason t)
rejected_found request_id reason db ws t found =
    let named = find-test (λ (s : Transfer). text_eq s.request_id request_id) db.transfers found in
    find-update_where (λ (s : Transfer). text_eq s.request_id request_id) (λ s. s.id == t.id) t
      (rejected_row reason t) db.transfers found (==_refl t.id) named

-- When the message of a rejection is delivered a second time, for a transfer that is found,
-- `release_reserve` is run for its amount on its wallet, if it has one, a second time.
pub handle_transfer_rejected-twice :
    (request_id : String) (reason : Option String) (db : Db) (events : List Event) (t : Transfer)
    → get_transfer_by_request_id request_id db ≡ some t
    → (respond
        (handle_transfer_rejected request_id reason)
        (respond (handle_transfer_rejected request_id reason) (idle db events)).1).1.db.wallets
      ≡ freed t.wallet_id t.amount (freed t.wallet_id t.amount db.wallets)
handle_transfer_rejected-twice request_id reason db events t found =
    ap (λ x. (respond (handle_transfer_rejected request_id reason) x.1).1.db.wallets)
      (handle_transfer_rejected-Rejects request_id reason db events t found)
    ∙ ap (λ x. x.1.db.wallets)
        (handle_transfer_rejected-Rejects request_id reason _ _ (rejected_row reason t)
          (rejected_found request_id reason db (freed t.wallet_id t.amount db.wallets) t found))

save_again :
    (a b : Transfer) (ts : List Transfer)
    → (a.id == b.id) ≡ true
    → update_where (λ x. x.id == b.id) (λ _. b) (update_where (λ x. x.id == b.id) (λ _. a) ts)
      ≡ update_where (λ x. x.id == b.id) (λ _. b) ts
save_again a b [] same = refl
save_again a b (x ∷ ts) same = elim (Bool-cases (x.id == b.id)) [
  | inl at ↦ rw (at, same, save_again a b ts same) refl
  | inr off ↦ rw (off, off, save_again a b ts same) refl
]

attempt :
    (e : Execution) (db : Db) (events : List Event) (t : Transfer)
    → respond (do save (signing t); commit; executed e (signing t)) (idle db events)
      ≡ (ok tt, idle (saved (attempted e t) db) (announced e t events))
attempt (created i) db events t =
    rw (save_again (signing t) (broadcast i (signing t)) db.transfers (==_refl t.id)) refl
attempt (refused e) db events t = elim (Bool-cases t.is_internal) [
  | inl inside ↦
      rw (save_again (signing t) (with_error e (signing t)) db.transfers (==_refl t.id), inside)
        refl
  | inr outside ↦
      rw (save_again (signing t) (with_error e (signing t)) db.transfers (==_refl t.id), outside)
        refl
]

-- For a transfer that is found and a message that holds both credentials and a body: a transfer in
-- status `pending`, `pending_balance` or `pending_approval` becomes `broadcasting` with the
-- provider's id, or, when the provider refuses, `failed` with the error's text, which is called
-- back to the backend for an external transfer; this is committed. The wallets stay as they are
-- either way. In any other status nothing changes.
pub handle_transfer_approved-Attempts :
    (execute : ApprovedMessage → Execution) (m : ApprovedMessage) (db : Db) (events : List Event)
    (t : Transfer)
    → is_complete m ≡ true
    → get_transfer_by_request_id m.request_id db ≡ some t
    → respond (handle_transfer_approved execute m) (idle db events) ≡ (
        if is_open t
        then (ok tt, idle (saved (attempted (execute m) t) db) (announced (execute m) t events))
        else (ok tt, idle db events))
unfolding handle_transfer_approved
handle_transfer_approved-Attempts execute m db events t whole found =
    rw (whole, found)
      (elim (Bool-cases (is_open t)) [
        | inl starts ↦ rw (starts) (attempt (execute m) db events t)
        | inr stays ↦ rw (stays) refl
      ])

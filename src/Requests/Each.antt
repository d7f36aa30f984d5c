-- ===== src/Requests/Each.antt =====
-- What each request keeps.
use custody_service.Common.{
  ℕ, String, ◌≡◌, refl, Bool, true, false, Option, none, some, List, inl, inr, ◌⊎◌, pos, ◌≤ℤ◌,
  Bool-cases, Option-cases, arith, if◌then◌else◌,
}
use custody_service.Models.{Db, Transfer, TransferStatus, is_final}
use custody_service.Ledger.Solvency.{execute}
use custody_service.Session.{World, Event, Result, ok, err, http, idle, respond}
use custody_service.Transfers.{get_transfer_by_request_id, with_status, update_transfer_status}
use custody_service.Api.Lifecycle.{
  approve_transfer, reject_transfer, update_transfer_signing, complete_transfer,
  cancel_transfer_endpoint, load,
}
use custody_service.Api.Final.{final_refused}
use custody_service.Api.Completion.{saved, complete_transfer-all_or_nothing}
use custody_service.Api.Closing.{cancel_transfer-Closes, reject_transfer-Closes}
use custody_service.Api.Approval.{approve_transfer-Answer}
use custody_service.Broker.{
  ApprovedMessage, Execution, created, refused, handle_transfer_rejected, handle_transfer_approved,
  is_complete,
}
use custody_service.Broker.Redelivery.{
  attempted, handle_transfer_rejected-Rejects, handle_transfer_approved-Attempts,
}
use custody_service.Requests.Validity.{
  IsValid, LeavesValid, saved-IsValid, answered, missing, approved-valid, released-IsSolvent,
  freed-IsSolvent, paid_out-IsSolvent, amount_nonneg,
}

-- After the signing endpoint the row has the new status; the amount is as it was.
signing_effect :
    (now : ℕ) (request_id tx : String) (db : Db) (es : List Event) (t : Transfer)
    → get_transfer_by_request_id request_id db ≡ some t
    → respond (update_transfer_signing now request_id tx) (idle db es)
      ≡ (ok tt, idle (saved (with_status now TransferStatus.signing (some tx) none none t) db) es)
unfolding update_transfer_signing load update_transfer_status
signing_effect now request_id tx db es t found = ground (arith, found)

leave :
    {A : Type 0} (b : Bool) (x y : Result A × World)
    → LeavesValid x
    → LeavesValid y
    → LeavesValid (if b then x else y)
leave true x y h k = h
leave false x y h k = k

already_final :
    (now : ℕ) (request_id : String) (hash : Option String) (db : Db) (es : List Event)
    (t : Transfer)
    → get_transfer_by_request_id request_id db ≡ some t
    → is_final t.status ≡ true
    → respond (complete_transfer now request_id hash) (idle db es) ≡ (err (http 400), idle db es)
already_final now request_id hash db es t e final =
    rw ((final_refused now request_id "" hash (idle db es) t e final).2) refl

no_attempt :
    (execute : ApprovedMessage → Execution) (m : ApprovedMessage) (db : Db) (es : List Event)
    → (is_complete m ≡ false) ⊎ (get_transfer_by_request_id m.request_id db ≡ none)
    → respond (handle_transfer_approved execute m) (idle db es) ≡ (ok tt, idle db es)
unfolding handle_transfer_approved
no_attempt execute m db es (inl part) = rw part refl
no_attempt execute m db es (inr e) = elim (Bool-cases (is_complete m)) [
  | inl whole ↦ rw (whole, e) refl
  | inr part ↦ rw part refl
]

attempted_nonneg :
    (e : Execution) (t : Transfer) → pos 0 ≤ℤ t.amount → pos 0 ≤ℤ (attempted e t).amount
attempted_nonneg (created i) t n = n
attempted_nonneg (refused e) t n = n

module _ (db : Db) (es : List Event) (v : IsValid db) where
  found_or_not :
      {A : Type 0} (request_id : String) (r : Result A × World)
      → (get_transfer_by_request_id request_id db ≡ none → LeavesValid r)
      → ((t : Transfer)
          → get_transfer_by_request_id request_id db ≡ some t
          → pos 0 ≤ℤ t.amount
          → LeavesValid r)
      → LeavesValid r
  found_or_not request_id r f g = elim (Option-cases (get_transfer_by_request_id request_id db)) [
    | inl e ↦ f e
    | inr (t, e) ↦ g t e (amount_nonneg db t request_id e v)
  ]

  pub approve-valid :
      (now : ℕ) (i : String) → LeavesValid (respond (approve_transfer now i) (idle db es))
  approve-valid now i =
      found_or_not i (respond (approve_transfer now i) (idle db es))
        (λ e. answered (missing now i "" none db es e).0 v)
        (λ t e n.
          answered (approve_transfer-Answer now i db es t e)
            (leave _ _ _ (approved-valid db es t v n now t.wallet_id) v))

  pub reject-valid :
      (now : ℕ) (i reason : String)
      → LeavesValid (respond (reject_transfer now i reason) (idle db es))
  reject-valid now i reason =
      found_or_not i (respond (reject_transfer now i reason) (idle db es))
        (λ e. answered (missing now i reason none db es e).1 v)
        (λ t e n.
          answered (reject_transfer-Closes now i reason db es t e) (
            leave _ _ _ v (saved-IsValid _ _ db n (released-IsSolvent t db.wallets n v.solvent) v)))

  pub sign-valid :
      (now : ℕ) (i tx : String)
      → LeavesValid (respond (update_transfer_signing now i tx) (idle db es))
  sign-valid now i tx =
      found_or_not i (respond (update_transfer_signing now i tx) (idle db es))
        (λ e. answered (missing now i tx none db es e).2 v)
        (λ t e n.
          answered (signing_effect now i tx db es t e)
            (saved-IsValid _ db.wallets db n v.solvent v))

  pub cancel-valid :
      (now : ℕ) (i reason : String)
      → LeavesValid (respond (cancel_transfer_endpoint now i reason) (idle db es))
  cancel-valid now i reason =
      found_or_not i (respond (cancel_transfer_endpoint now i reason) (idle db es))
        (λ e. answered (missing now i reason none db es e).4 v)
        (λ t e n.
          answered (cancel_transfer-Closes now i reason db es t e) (
            leave _ _ _ (saved-IsValid _ _ db n (released-IsSolvent t db.wallets n v.solvent) v) v))

  pub rejected_message-valid :
      (i : String) (reason : Option String)
      → LeavesValid (respond (handle_transfer_rejected i reason) (idle db es))
  rejected_message-valid i reason =
      found_or_not i (respond (handle_transfer_rejected i reason) (idle db es))
        (λ e. answered (missing 0 i "" reason db es e).5 v)
        (λ t e n.
          answered (handle_transfer_rejected-Rejects i reason db es t e) (
            saved-IsValid _ _ db n (freed-IsSolvent t.wallet_id t.amount db.wallets n v.solvent) v))

  pub complete-valid :
      (now : ℕ) (i : String) (hash : Option String)
      → LeavesValid (respond (complete_transfer now i hash) (idle db es))
  complete-valid now i hash =
      found_or_not i (respond (complete_transfer now i hash) (idle db es))
        (λ e. answered (missing now i "" hash db es e).3 v)
        (λ t e n. elim (Bool-cases (is_final t.status)) [
          | inl final ↦ answered (already_final now i hash db es t e final) v
          | inr open_ ↦ answered (complete_transfer-all_or_nothing now i hash db es t e open_) (
              leave _ _ _
                (saved-IsValid _ _ db n (paid_out-IsSolvent t t.wallet_id db.wallets n v.solvent) v)
                v)
        ])

  pub approved_message-valid :
      (execute : ApprovedMessage → Execution) (m : ApprovedMessage)
      → LeavesValid (respond (handle_transfer_approved execute m) (idle db es))
  approved_message-valid execute m =
      found_or_not m.request_id (respond (handle_transfer_approved execute m) (idle db es))
        (λ e. answered (no_attempt execute m db es (inr e)) v)
        (λ t e n. elim (Bool-cases (is_complete m)) [
          | inl whole ↦ answered (handle_transfer_approved-Attempts execute m db es t whole e) (
              leave _ _ _
                (saved-IsValid _ db.wallets db (attempted_nonneg (execute m) t n) v.solvent v) v)
          | inr part ↦ answered (no_attempt execute m db es (inl part)) v
        ])

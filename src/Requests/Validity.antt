-- ===== src/Requests/Validity.antt =====
-- What every sequence of requests keeps.
use custody_service.Common.{
  ℕ, String, ◌≡◌, refl, subst, Bool, Option, none, some, List, [], ◌∷◌, inl, inr, ℤ, pos, ◌≤ℤ◌, All,
  All-update_where, find, ◌==◌, Bool-cases, Option-cases, arith, text_eq,
}
use custody_service.Models.{Db, Wallet, Transfer, TransferStatus, is_status, get_wallet}
use custody_service.Ledger.Solvency.{
  IsSolvent, reserving, releasing, completing, execute, execute-IsSolvent,
}
use custody_service.Ledger.HotWallet.{Selection, selected, short}
use custody_service.Ledger.HotWallet.Reservation.{select_and_reserve-Outcome, Outcome}
use custody_service.Session.{World, Event, Result, ok, err, http, idle, respond}
use custody_service.Transfers.{get_transfer_by_request_id}
use custody_service.Api.Responses.{vault_of}
use custody_service.Api.Lifecycle.{
  approve_transfer, reject_transfer, update_transfer_signing, complete_transfer,
  cancel_transfer_endpoint, load,
}
use custody_service.Api.Completion.{saved, paid_out}
use custody_service.Api.Closing.{released}
use custody_service.Api.Approval.{approved, from_reservation, from_selection}
use custody_service.Broker.{handle_transfer_rejected}
use custody_service.Broker.Redelivery.{freed}

-- Every wallet's reserve lies between zero and its balance, and no transfer's amount is negative.
pub record IsValid (db : Db) : Type 0 where
  pub solvent : All IsSolvent db.wallets
  pub nonneg : All (λ (t : Transfer). pos 0 ≤ℤ t.amount) db.transfers

All-find :
    {A : Type 0} (P : A → Type 0) (p : A → Bool) (xs : List A) (x : A)
    → find p xs ≡ some x
    → All P xs
    → P x
All-find P p [] x f h = cc
All-find P p (y ∷ ys) x f h = elim (Bool-cases (p y)) [
  | inl e ↦ let same : y ≡ x = ground arith in subst P same h.0
  | inr e ↦ All-find P p ys x (ground arith) h.1
]

pub saved-IsValid :
    (t : Transfer) (ws : List Wallet) (db : Db)
    → pos 0 ≤ℤ t.amount
    → All IsSolvent ws
    → IsValid db
    → IsValid (saved t (record db { wallets = ws }))
saved-IsValid t ws db n s v = record {
  solvent = s;
  nonneg =
      All-update_where (λ (u : Transfer). pos 0 ≤ℤ u.amount) (λ u. u.id == t.id) (λ _. t)
        (λ u _ _. n) db.transfers v.nonneg;
}

module _ (db : Db) (t : Transfer) (request_id : String) where
  pub amount_nonneg :
      get_transfer_by_request_id request_id db ≡ some t → IsValid db → pos 0 ≤ℤ t.amount
  amount_nonneg found v =
      All-find (λ (u : Transfer). pos 0 ≤ℤ u.amount)
        (λ (u : Transfer). text_eq u.request_id request_id) db.transfers t found v.nonneg

pub freed-IsSolvent :
    (i : Option ℕ) (a : ℤ) (ws : List Wallet)
    → pos 0 ≤ℤ a
    → All IsSolvent ws
    → All IsSolvent (freed i a ws)
unfolding execute
freed-IsSolvent none a ws n s = s
freed-IsSolvent (some i) a ws n s = execute-IsSolvent (releasing i a) ws n s

pub released-IsSolvent :
    (t : Transfer) (ws : List Wallet)
    → pos 0 ≤ℤ t.amount
    → All IsSolvent ws
    → All IsSolvent (released t ws)
released-IsSolvent t ws n s = elim (Option-cases t.wallet_id) [
  | inl e ↦ rw e s
  | inr (i, e) ↦ rw e (elim (Bool-cases (is_status TransferStatus.pending t.status)) [
    | inl at ↦ rw at (freed-IsSolvent (some i) t.amount ws n s)
    | inr off ↦ rw off s
  ])
]

pub paid_out-IsSolvent :
    (t : Transfer) (i : Option ℕ) (ws : List Wallet)
    → pos 0 ≤ℤ t.amount
    → All IsSolvent ws
    → All IsSolvent (paid_out t i ws).0
unfolding execute
paid_out-IsSolvent t none ws n s = s
paid_out-IsSolvent t (some i) ws n s = execute-IsSolvent (completing i t.amount) ws n s

-- The tables that a request leaves are valid.
abbrev pub LeavesValid : {A : Type 0} → Result A × World → Type 0
LeavesValid a = IsValid a.1.committed

pub answered : {A : Type 0} {a b : Result A × World} → a ≡ b → LeavesValid b → LeavesValid a
answered e h = rw e h

-- The endpoints on a request id that no transfer has.
pub missing :
    (now : ℕ) (request_id reason : String) (hash : Option String) (db : Db) (es : List Event)
    → get_transfer_by_request_id request_id db ≡ none
    → (respond (approve_transfer now request_id) (idle db es) ≡ (err (http 404), idle db es))
      × (respond (reject_transfer now request_id reason) (idle db es)
          ≡ (err (http 404), idle db es))
      × (respond (update_transfer_signing now request_id reason) (idle db es)
          ≡ (err (http 404), idle db es))
      × (respond (complete_transfer now request_id hash) (idle db es)
          ≡ (err (http 404), idle db es))
      × (respond (cancel_transfer_endpoint now request_id reason) (idle db es)
          ≡ (err (http 404), idle db es))
      × (respond (handle_transfer_rejected request_id hash) (idle db es) ≡ (ok tt, idle db es))
unfolding approve_transfer reject_transfer update_transfer_signing complete_transfer
    cancel_transfer_endpoint handle_transfer_rejected load
missing now request_id reason hash db es e =
    (rw e refl, rw e refl, rw e refl, rw e refl, rw e refl, rw e refl)

module _ (db : Db) (es : List Event) (t : Transfer) (v : IsValid db) (n : pos 0 ≤ℤ t.amount) where
  selection-valid :
      (now : ℕ) (s : Selection)
      → Outcome db t.contract_address t.blockchain t.amount s
      → LeavesValid (from_selection now db es t s)
  unfolding execute
  selection-valid now (selected r ws) o =
      let kept = execute-IsSolvent (reserving r.wallet.id t.amount) db.wallets n v.solvent in
      saved-IsValid _ _ db n kept v
  selection-valid now (short s) o = saved-IsValid _ db.wallets db n v.solvent v

  pub approved-valid : (now : ℕ) (i : Option ℕ) → LeavesValid (approved now db es t i)
  approved-valid now none =
      selection-valid now _ (select_and_reserve-Outcome db t.contract_address t.blockchain t.amount)
  approved-valid now (some i) = reservation (get_wallet db i) (vault_of db t.vault_id)
    where
      reservation : (w : Option _) (x : Option _) → LeavesValid (from_reservation db es t w x)
      reservation none x = v
      reservation (some w) none = v
      reservation (some w) (some x) = v

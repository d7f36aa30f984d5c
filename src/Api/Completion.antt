-- ===== src/Api/Completion.antt =====
-- `complete_transfer`: all or nothing, and once.
use custody_service.Common.{
  is_filled, ℕ, String, ◌≡◌, refl, Bool, true, false, arith, Option, none, some, List, ◌==◌,
  text_eq, ==_refl, update_where, if◌then◌else◌, find-update_where, find-test, ◌∙◌, sym, ap, subst,
}
use custody_service.Models.{Db, Transfer, TransferStatus, Wallet, is_final, known}
use custody_service.Ledger.{complete_transfer_balance}
use custody_service.Session.{ok, err, http, respond, idle, Event}
use custody_service.Transfers.{get_transfer_by_request_id, update_transfer_status}
use custody_service.Api.Lifecycle.{load, pay_out, complete_transfer}
use custody_service.Api.Final.{final_refused}

-- `db` with the row of `t` replaced.
abbrev pub saved : Transfer → Db → Db
saved t db = record db { transfers = update_where (λ s. s.id == t.id) (λ _. t) db.transfers }

-- The wallets after the payout, and whether it went through; without a wallet nothing is deducted.
abbrev pub paid_out : Transfer → Option ℕ → List Wallet → List Wallet × Bool
paid_out t none ws = (ws, true)
paid_out t (some i) ws = complete_transfer_balance i t.amount ws

abbrev pub completed : ℕ → Option String → Transfer → Transfer
completed now tx_hash t = record t {
  status = known TransferStatus.completed;
  tx_hash = if is_filled tx_hash then tx_hash else t.tx_hash;
  completed_at = some now;
}

-- For a transfer that is found and not final: if the payout goes through, the endpoint answers
-- with success, the wallets are those of the payout, the transfer's row has status `completed`,
-- the given hash if there is one and the time of completion, and all of this is committed. If the
-- payout fails, the answer is 500 and the database is as before. No message is sent.
pub complete_transfer-all_or_nothing :
    (now : ℕ) (request_id : String) (tx_hash : Option String) (db : Db) (events : List Event)
    (t : Transfer)
    → get_transfer_by_request_id request_id db ≡ some t
    → is_final t.status ≡ false
    → respond (complete_transfer now request_id tx_hash) (idle db events) ≡ (
        let (ws, done) = paid_out t t.wallet_id db.wallets in
        if done
        then (ok tt, idle (saved (completed now tx_hash t) (record db { wallets = ws })) events)
        else (err (http 500), idle db events))
unfolding complete_transfer load pay_out update_transfer_status
complete_transfer-all_or_nothing now request_id tx_hash db events t found open_ =
    ground (arith, found)

completed_found :
    (now : ℕ) (request_id : String) (tx_hash : Option String) (db : Db) (ws : List Wallet)
    (t : Transfer)
    → get_transfer_by_request_id request_id db ≡ some t
    → get_transfer_by_request_id request_id
        (saved (completed now tx_hash t) (record db { wallets = ws }))
      ≡ some (completed now tx_hash t)
completed_found now request_id tx_hash db ws t found =
    let named = find-test (λ (s : Transfer). text_eq s.request_id request_id) db.transfers found in
    find-update_where (λ (s : Transfer). text_eq s.request_id request_id) (λ s. s.id == t.id) t
      (completed now tx_hash t) db.transfers found (==_refl t.id) named

-- After a completion that went through, a second completion of the same transfer answers 400 and
-- changes nothing: a transfer is paid out at most once through the endpoint.
pub complete_transfer-once :
    (now later : ℕ) (request_id : String) (tx_hash again : Option String) (db : Db)
    (events : List Event) (t : Transfer)
    → get_transfer_by_request_id request_id db ≡ some t
    → is_final t.status ≡ false
    → (paid_out t t.wallet_id db.wallets).1 ≡ true
    → let w = (respond (complete_transfer now request_id tx_hash) (idle db events)).1 in
      complete_transfer later request_id again w ≡ (err (http 400), w)
unfolding is_final
complete_transfer-once now later request_id tx_hash again db events t found open_ paid =
    let ws = (paid_out t t.wallet_id db.wallets).0 in
    let db' = saved (completed now tx_hash t) (record db { wallets = ws }) in
    let done : respond (complete_transfer now request_id tx_hash) (idle db events)
        ≡ (ok tt, idle db' events) =
      complete_transfer-all_or_nothing now request_id tx_hash db events t found open_
      ∙ ap (λ (b : Bool). if b then (ok tt, idle db' events) else (err (http 500), idle db events))
          paid in
    subst (λ r. complete_transfer later request_id again r.1 ≡ (err (http 400), r.1)) (sym done)
      (final_refused later request_id "" again (idle db' events) (completed now tx_hash t)
        (completed_found now request_id tx_hash db ws t found) refl).2

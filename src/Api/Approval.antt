-- ===== src/Api/Approval.antt =====
-- `approve_transfer`: its answer, the database and the messages on every branch.
use custody_service.Common.{
  ℕ, String, ◌≡◌, refl, ap, ◌∙◌, arith, Option, none, some, List, [], ◌∷◌, ◌++◌, if◌then◌else◌,
}
use custody_service.Models.{
  Db, Transfer, TransferStatus, Wallet, Vault, known, is_status, get_wallet,
}
use custody_service.Ledger.HotWallet.{
  Row, Selection, selected, short, select_and_reserve_hot_wallet,
}
use custody_service.Ledger.{reserve_balance}
use custody_service.Ledger.HotWallet.Reservation.{
  Outcome, select_and_reserve-Outcome, selected-reserve_balance,
}
use custody_service.Session.{
  World, Result, ok, err, http, respond, idle, Event, ReadyMessage, balance_ready,
}
use custody_service.Transfers.{
  get_transfer_by_request_id, reserve_hot_wallet, update_transfer_with_wallet,
}
use custody_service.Api.Responses.{ApproveResponse, vault_of}
use custody_service.Api.Lifecycle.{load, paying, not_approved, approve_transfer}
use custody_service.Api.Completion.{saved}

abbrev pub Answer : Type 0
Answer = Result ApproveResponse × World

-- The answer and the message that say which vault and address pay for the transfer.
abbrev pub paid_from : Transfer → Wallet → Vault → ApproveResponse
paid_from t w v = record {
  request_id = t.request_id;
  status = TransferStatus.pending;
  source_vault_id = some v.provider_vault_id;
  source_address = some w.address;
}

abbrev pub told : Transfer → Wallet → Vault → ReadyMessage
told t w v = record {
  request_id = t.request_id;
  source_vault_id = v.provider_vault_id;
  source_address = w.address;
  destination_address = t.destination_address;
  destination_tag = t.destination_tag;
  amount = t.amount;
  contract_address = t.contract_address;
  blockchain = t.blockchain;
}

-- The answer for a transfer that has to wait.
abbrev pub waits_now : Transfer → ApproveResponse
waits_now t = record {
  request_id = t.request_id;
  status = TransferStatus.pending_balance;
  source_vault_id = none;
  source_address = none;
}

-- The row of a transfer that a selected wallet pays for.
abbrev pub pending_on : ℕ → Row → Transfer → Transfer
pending_on now r t = record t {
  vault_id = some r.vault.id;
  wallet_id = some r.wallet.id;
  asset_id = some r.asset.id;
  source_address = some r.wallet.address;
  status = known TransferStatus.pending;
  reserved_at = some now;
}

-- The reservation made at creation is used: nothing is written.
abbrev pub from_reservation : Db → List Event → Transfer → Option Wallet → Option Vault → Answer
from_reservation db events t none v = (err (http 500), idle db events)
from_reservation db events t (some w) none = (err (http 500), idle db events)
from_reservation db events t (some w) (some v) =
    (ok (paid_from t w v), idle db (events ++ balance_ready (told t w v) ∷ []))

-- A reservation is made now, or the transfer is queued.
abbrev pub from_selection : ℕ → Db → List Event → Transfer → Selection → Answer
from_selection now db events t (selected r ws) = (
  ok (paid_from t r.wallet r.vault),
  idle
      (saved (pending_on now r t)
        (record db { wallets = (reserve_balance r.wallet.id t.amount db.wallets).0 }))
      (events ++ balance_ready (told t r.wallet r.vault) ∷ []),
)
from_selection now db events t (short s) = (
  ok (waits_now t),
  idle (saved (record t { status = known TransferStatus.pending_balance }) db) events,
)

abbrev pub approved : ℕ → Db → List Event → Transfer → Option ℕ → Answer
approved now db events t (some i) =
    from_reservation db events t (get_wallet db i) (vault_of db t.vault_id)
approved now db events t none =
    from_selection now db events t
      (select_and_reserve_hot_wallet db t.contract_address t.blockchain t.amount)

-- The outcome of the reservation as the code puts it together.
abbrev settled_on : ℕ → Db → List Event → Transfer → Selection → Answer
settled_on now db events t (selected r ws) = (
  ok (paid_from t r.wallet r.vault),
  idle (saved (pending_on now r t) (record db { wallets = ws }))
      (events ++ balance_ready (told t r.wallet r.vault) ∷ []),
)
settled_on now db events t (short s) = from_selection now db events t (short s)

settled-from_selection :
    (now : ℕ) (db : Db) (events : List Event) (t : Transfer) (s : Selection)
    → Outcome db t.contract_address t.blockchain t.amount s
    → settled_on now db events t s ≡ from_selection now db events t s
settled-from_selection now db events t (selected r ws) o =
    ap
      (λ xs. (
        ok (paid_from t r.wallet r.vault),
        idle (saved (pending_on now r t) (record db { wallets = xs }))
            (events ++ balance_ready (told t r.wallet r.vault) ∷ []),
      ))
      (selected-reserve_balance db t.contract_address t.blockchain t.amount r ws o)
settled-from_selection now db events t (short s) o = refl

-- The same, for a reservation made at creation or one made now.
abbrev settled_by : ℕ → Db → List Event → Transfer → Option ℕ → Answer
settled_by now db events t (some i) = approved now db events t (some i)
settled_by now db events t none =
    settled_on now db events t
      (select_and_reserve_hot_wallet db t.contract_address t.blockchain t.amount)

settled-approved :
    (now : ℕ) (db : Db) (events : List Event) (t : Transfer) (i : Option ℕ)
    → settled_by now db events t i ≡ approved now db events t i
settled-approved now db events t (some i) = refl
settled-approved now db events t none =
    settled-from_selection now db events t _
      (select_and_reserve-Outcome db t.contract_address t.blockchain t.amount)

as_settled :
    (now : ℕ) (request_id : String) (db : Db) (events : List Event) (t : Transfer)
    → get_transfer_by_request_id request_id db ≡ some t
    → respond (approve_transfer now request_id) (idle db events) ≡ (
        if is_status TransferStatus.pending_approval t.status
        then settled_by now db events t t.wallet_id
        else (err (http 400), idle db events))
unfolding approve_transfer load paying not_approved reserve_hot_wallet update_transfer_with_wallet
as_settled now request_id db events t found = ground (arith, found)

-- For a transfer that is found. In another status than `pending_approval`: 400, nothing changes.
-- With a wallet from its creation: the answer says `pending`, one `balance_ready` message is sent
-- and no table changes; 500 and no change if that wallet or its vault is gone. Without a wallet:
-- `reserve_balance` is run for the amount on the selected wallet, the transfer becomes `pending`
-- with that wallet, this is committed and announced; or, on a shortage, the transfer becomes
-- `pending_balance`, which is committed, and nothing is sent.
pub approve_transfer-Answer :
    (now : ℕ) (request_id : String) (db : Db) (events : List Event) (t : Transfer)
    → get_transfer_by_request_id request_id db ≡ some t
    → respond (approve_transfer now request_id) (idle db events) ≡ (
        if is_status TransferStatus.pending_approval t.status
        then approved now db events t t.wallet_id
        else (err (http 400), idle db events))
approve_transfer-Answer now request_id db events t found =
    as_settled now request_id db events t found
    ∙ ap
        (λ x.
          if is_status TransferStatus.pending_approval t.status
          then x
          else (err (http 400), idle db events))
        (settled-approved now db events t t.wallet_id)

-- ===== src/Transfers.antt =====
-- app/dao/transfer.py, the operations on transfers: creation, lookup, status changes, the queue of
-- transfers that wait for a balance, and cancellation. `flush` is part of each change.
pub mod Queue
use custody_service.Common.{
  ℕ, String, Bool, true, false, ◌&&◌, ◌==◌, Option, none, some, List, [], ◌∷◌, ◌++◌, ℤ, is_some,
  is_filled, text_eq, append_text, find, update_where, if◌then◌else◌, ◌+◌, not,
}
use custody_service.Models.{
  Db, Wallet, Vault, Asset, Transfer, TransferStatus, Column, known, is_status, is_cancellable,
}
use custody_service.Ledger.{release_reserve}
use custody_service.Ledger.HotWallet.{
  Row, Selection, selected, short, select_and_reserve_hot_wallet,
}
use custody_service.Session.{
  World, Action, Done, Event, payout_callback, PayoutStatus, Error, shortage, value_error, ok, err,
  pure, raise, raise_if, except, gets, modify, send, ◌>>=◌, ◌>>◌,
}

-- `select(TransferModel).where(TransferModel.request_id == request_id)`
abbrev pub get_transfer_by_request_id : String → Db → Option Transfer
get_transfer_by_request_id request_id db =
    find (λ (t : Transfer). text_eq t.request_id request_id) db.transfers

abbrev pub get_transfer_by_id : ℕ → Db → Option Transfer
get_transfer_by_id transfer_id db = find (λ (t : Transfer). t.id == transfer_id) db.transfers

-- Attributes of a loaded object are assigned, and flushed to the row of its id.
abbrev pub save : Transfer → Action Done
save t = modify (λ db. record db {
  transfers = update_where (λ (s : Transfer). s.id == t.id) (λ _. t) db.transfers;
})

-- A statement on the wallets, run in the session.
abbrev pub on_wallets : (List Wallet → List Wallet × Bool) → Action Bool
on_wallets f w =
    let (ws, done) = f w.db.wallets in (ok done, record w { db = record w.db { wallets = ws } })

-- `if x: old = x`
abbrev pub filled_or : Option String → Option String → Option String
filled_or new old = if is_filled new then new else old

abbrev pub is_closing : TransferStatus → Bool
is_closing TransferStatus.completed = true
is_closing TransferStatus.rejected = true
is_closing TransferStatus.failed = true
is_closing TransferStatus.cancelled = true
is_closing _ = false

-- The row after `update_transfer_status`.
abbrev pub with_status :
    ℕ → TransferStatus → Option String → Option String → Option String → Transfer → Transfer
with_status now status provider_tx_id tx_hash error_message t = record t {
  status = known status;
  provider_tx_id = filled_or provider_tx_id t.provider_tx_id;
  tx_hash = filled_or tx_hash t.tx_hash;
  error_message = filled_or error_message t.error_message;
  completed_at = if is_closing status then some now else t.completed_at;
}

abbrev status_of_found :
    ℕ
    → TransferStatus
    → Option String
    → Option String
    → Option String
    → Option Transfer
    → Action (Option Transfer)
status_of_found now status p h e none = pure none
status_of_found now status p h e (some t) = do
  save (with_status now status p h e t)
  pure (some (with_status now status p h e t))

unfoldable pub update_transfer_status :
    ℕ
    → String
    → TransferStatus
    → Option String
    → Option String
    → Option String
    → Action (Option Transfer)
update_transfer_status now request_id status provider_tx_id tx_hash error_message = do
  found ← gets (get_transfer_by_request_id request_id)
  status_of_found now status provider_tx_id tx_hash error_message found

-- The row after `update_transfer_with_wallet`.
abbrev pub with_wallet : ℕ → Row → Transfer → Transfer
with_wallet now r t = record t {
  vault_id = some r.vault.id;
  wallet_id = some r.wallet.id;
  asset_id = some r.asset.id;
  source_address = some r.wallet.address;
  status = known TransferStatus.pending;
  reserved_at = some now;
}

unfoldable pub update_transfer_with_wallet : ℕ → Transfer → Row → Action Transfer
update_transfer_with_wallet now t r = do save (with_wallet now r t); pure (with_wallet now r t)

-- `select_and_reserve_hot_wallet` in the session.
abbrev pub settled : Selection → Action Row
settled (selected r ws) w = (ok r, record w { db = record w.db { wallets = ws } })
settled (short s) w = (err (shortage s), w)

unfoldable pub reserve_hot_wallet : Option String → String → ℤ → Action Row
reserve_hot_wallet contract_address blockchain amount w =
    settled (select_and_reserve_hot_wallet w.db contract_address blockchain amount) w

abbrev pub with_retry : Transfer → Transfer
with_retry t = record t { retry_count = t.retry_count + 1 }

-- `except (InsufficientBalanceError, NoHotWalletError)`
abbrev pub waiting : Action Done → Transfer → Error → Action Bool
waiting flush t (shortage s) = do flush; save (with_retry t); pure false
waiting flush t e = raise e

-- `flush` writes what was assigned before the call: the statement that reserves does not see it yet.
abbrev pub process_flushing : Action Done → ℕ → Transfer → Action Bool
process_flushing flush now t =
    except
      (do
        row ← reserve_hot_wallet t.contract_address t.blockchain t.amount
        flush
        update_transfer_with_wallet now t row
        pure true)
      (waiting flush t)

unfoldable pub process_pending_balance_transfer : ℕ → Transfer → Action Bool
unfolding reserve_hot_wallet update_transfer_with_wallet
process_pending_balance_transfer now t = process_flushing (pure tt) now t

-- `if not transfer.is_internal: await notify_backend_payout_status(…)`
abbrev pub notify_unless_internal : Transfer → PayoutStatus → Option String → Action Done
notify_unless_internal t status tx_hash =
    if t.is_internal then pure tt else send (payout_callback t.request_id status tx_hash)

-- `if condition: await release_reserve(db, transfer.wallet_id, transfer.amount)`
abbrev pub release_if : Bool → Option ℕ → ℤ → Action Done
release_if true (some wallet_id) amount = do on_wallets (release_reserve wallet_id amount); pure tt
release_if true none amount = pure tt
release_if false wallet_id amount = pure tt

abbrev pub with_cancelled : ℕ → String → Transfer → Transfer
with_cancelled now reason t = record t {
  status = known TransferStatus.cancelled;
  error_message = some (append_text "Cancelled: " reason);
  completed_at = some now;
}

unfoldable pub cancel_transfer : ℕ → Transfer → String → Action Transfer
unfolding is_cancellable is_status
cancel_transfer now t reason = do
  raise_if (not (is_cancellable t.status)) value_error
  release_if (is_status TransferStatus.pending t.status) t.wallet_id t.amount
  save (with_cancelled now reason t)
  notify_unless_internal t PayoutStatus.cancelled none
  pure (with_cancelled now reason t)

-- The arguments of `create_transfer`.
pub record NewTransfer : Type 0 where
  pub request_id : String
  pub blockchain : String
  pub currency : String
  pub destination_address : String
  pub amount : ℤ
  pub contract_address : Option String
  pub amount_usd : Option ℤ
  pub is_internal : Bool
  pub destination_tag : Option String
  pub note : Option String
  pub vault_id : Option ℕ
  pub wallet_id : Option ℕ
  pub asset_id : Option ℕ
  pub source_address : Option String
  pub to_vault_id : Option ℕ
  pub status : TransferStatus

abbrev reserved_time : ℕ → Option ℕ → Option ℕ
reserved_time now none = none
reserved_time now (some wallet_id) = some now

-- The new row; its id is a fresh `uuid4()`, and columns that are not given take their default.
unfoldable pub new_row : ℕ → ℕ → NewTransfer → Transfer
new_row now new_id n = record {
  id = new_id;
  request_id = n.request_id;
  is_internal = n.is_internal;
  vault_id = n.vault_id;
  wallet_id = n.wallet_id;
  asset_id = n.asset_id;
  source_address = n.source_address;
  currency = n.currency;
  contract_address = n.contract_address;
  blockchain = n.blockchain;
  network = none;
  destination_address = n.destination_address;
  destination_tag = n.destination_tag;
  to_vault_id = n.to_vault_id;
  amount = n.amount;
  amount_usd = n.amount_usd;
  status = known n.status;
  provider_tx_id = none;
  tx_hash = none;
  note = n.note;
  reserved_at = reserved_time now n.wallet_id;
  completed_at = none;
  created_at = now;
  error_message = none;
  retry_count = 0;
}

unfoldable pub create_transfer : ℕ → ℕ → NewTransfer → Action Transfer
create_transfer now new_id n = do
  modify (λ db. record db { transfers = db.transfers ++ new_row now new_id n ∷ [] })
  pure (new_row now new_id n)

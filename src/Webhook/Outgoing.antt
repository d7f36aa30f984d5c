-- ===== src/Webhook/Outgoing.antt =====
-- app/dao/webhook/service.py: a withdrawal. The transfer is found by the provider's transaction id
-- or by the request id, and moved on; a withdrawal without a transfer goes to `transactions`.
use custody_service.Common.{
  ℕ, String, Bool, true, false, not, ◌&&◌, ◌||◌, ◌==◌, Option, none, some, [], ◌∷◌, ◌++◌, ℤ, find,
  select, update_where, is_filled, same_text?, text_eq, append_text, if◌then◌else◌,
}
use custody_service.Models.{Db, Transfer, Transaction, TransferStatus, known}
use custody_service.Ledger.{complete_transfer_balance}
use custody_service.Outside.{Outside}
use custody_service.Session.{
  Action, Done, PayoutStatus, pure, gets, modify, scalar_one_or_none, ◌>>=◌, ◌>>◌,
}
use custody_service.Transfers.{
  save, on_wallets, filled_or, get_transfer_by_request_id, notify_unless_internal, release_if,
}
use custody_service.Webhook.Payload.{Details, Payload, WebhookResult, is_failed_or_rejected}
use custody_service.Webhook.Wallets.{WalletInfo, identify_source_wallet}
use custody_service.Webhook.Amounts.{parse_amount, parse_amount_usd}

-- The attribute `provider_tx_id` set on a transfer that was found by its request id.
abbrev pub adopt : String → Option Transfer → Action (Option Transfer)
adopt provider_tx_id none = pure none
adopt provider_tx_id (some t) = do
  save (record t { provider_tx_id = some provider_tx_id })
  pure (some (record t { provider_tx_id = some provider_tx_id }))

abbrev pub by_request : String → Option String → Action (Option Transfer)
by_request provider_tx_id none = pure none
by_request provider_tx_id (some r) =
    if is_filled (some r)
    then (do found ← gets (get_transfer_by_request_id r); adopt provider_tx_id found)
    else pure none

abbrev pub or_by_request : String → Option String → Option Transfer → Action (Option Transfer)
or_by_request provider_tx_id request_id (some t) = pure (some t)
or_by_request provider_tx_id request_id none = by_request provider_tx_id request_id

abbrev pub by_provider : String → Transfer → Bool
by_provider i t = same_text? t.provider_tx_id (some i)

-- `provider_tx_id` is not unique, so that several transfers may have it, which raises.
unfoldable pub find_transfer : String → Option String → Action (Option Transfer)
find_transfer provider_tx_id request_id = do
  rows ← gets (λ db. select (by_provider provider_tx_id) db.transfers)
  found ← scalar_one_or_none rows
  or_by_request provider_tx_id request_id found

-- `f"Transaction {tx.status}: {tx.subStatus or 'No details'}"`
abbrev details_or : Option String → String
details_or none = "No details"
details_or (some s) = if is_filled (some s) then s else "No details"

abbrev pub with_failure : ℕ → Details → Transfer → Transfer
with_failure now d t = record t {
  status = known TransferStatus.failed;
  error_message = some (
      append_text "Transaction "
        (append_text d.status (append_text ": " (details_or d.sub_status))));
  completed_at = some now;
}

unfoldable pub handle_transfer_failed : ℕ → Details → Transfer → Action Done
handle_transfer_failed now d t = do
  release_if true t.wallet_id t.amount
  save (with_failure now d t)
  notify_unless_internal t PayoutStatus.failed d.tx_hash

abbrev pub with_completion : ℕ → Details → Transfer → Transfer
with_completion now d t = record t {
  status = known TransferStatus.completed;
  tx_hash = d.tx_hash;
  completed_at = some now;
}

-- `if transfer.wallet_id: await complete_transfer_balance(…)`; its result is not looked at.
abbrev pub complete_if : Option ℕ → ℤ → Action Done
complete_if none amount = pure tt
complete_if (some wallet_id) amount = do
  on_wallets (complete_transfer_balance wallet_id amount)
  pure tt

unfoldable pub handle_transfer_completed : ℕ → Details → Transfer → Action Done
handle_transfer_completed now d t = do
  complete_if t.wallet_id t.amount
  save (with_completion now d t)
  notify_unless_internal t PayoutStatus.completed d.tx_hash

-- `if tx.txHash and not transfer.tx_hash: transfer.tx_hash = tx.txHash`
abbrev pub with_hash : Option String → Transfer → Transfer
with_hash h t = if is_filled h && not (is_filled t.tx_hash) then record t { tx_hash = h } else t

abbrev pub is_signing : String → Bool
is_signing s =
    text_eq s "PENDING_SIGNATURE" || (text_eq s "QUEUED" || text_eq s "PENDING_AUTHORIZATION")

unfoldable pub move_transfer : ℕ → Payload → Details → Transfer → Action Done
unfolding handle_transfer_failed handle_transfer_completed is_failed_or_rejected
move_transfer now p d t =
    if is_failed_or_rejected p
    then handle_transfer_failed now d t
    else if text_eq d.status "COMPLETED"
    then handle_transfer_completed now d t
    else if text_eq d.status "BROADCASTING"
    then save (record t { status = known TransferStatus.broadcasting })
    else if is_signing d.status
    then save (record t { status = known TransferStatus.signing })
    else save t

abbrev pub processed : Details → Transfer → WebhookResult
processed d t = record {
  status = "processed";
  transaction_id = some t.id;
  provider_tx_id = some d.id;
  amount = some t.amount;
  vault_id = t.vault_id;
  wallet_id = t.wallet_id;
  asset_id = t.asset_id;
}

abbrev pub info_vault : Option WalletInfo → Option ℕ
info_vault none = none
info_vault (some i) = some i.vault_id

abbrev pub info_wallet : Option WalletInfo → Option ℕ
info_wallet none = none
info_wallet (some i) = i.wallet_id

abbrev pub info_asset : Option WalletInfo → Option ℕ
info_asset none = none
info_asset (some i) = i.asset_id

-- The new row of a transaction, with a fresh id.
abbrev pub new_transaction :
    ℕ → Option String → Details → String → Option WalletInfo → ℤ → Option ℤ → Transaction
new_transaction new_id request_id d raw_body info amount amount_usd = record {
  id = new_id;
  request_id = request_id;
  provider_tx_id = d.id;
  tx_hash = d.tx_hash;
  vault_id = info_vault info;
  wallet_id = info_wallet info;
  asset_id = info_asset info;
  amount = amount;
  amount_usd = amount_usd;
  status = d.status;
  num_confirmations = d.num_of_confirmations;
  is_internal = false;
  source_address = d.source_address;
  destination_address = d.destination_address;
  raw_webhook_data = some raw_body;
}

abbrev pub add_transaction : Transaction → Action Done
add_transaction x = modify (λ db. record db { transactions = db.transactions ++ x ∷ [] })

abbrev pub save_transaction : Transaction → Action Done
save_transaction x = modify (λ db. record db {
  transactions = update_where (λ (y : Transaction). y.id == x.id) (λ _. x) db.transactions;
})

abbrev pub transaction_of : String → Db → Option Transaction
transaction_of i db = find (λ (x : Transaction). text_eq x.provider_tx_id i) db.transactions

-- The columns that every further notification overwrites.
abbrev pub refreshed : Details → String → Transaction → Transaction
refreshed d raw_body x = record x {
  status = d.status;
  tx_hash = filled_or d.tx_hash x.tx_hash;
  num_confirmations = d.num_of_confirmations;
  raw_webhook_data = some raw_body;
}

abbrev pub store : Transaction → Option Transaction → Details → String → Action Transaction
store new none d raw_body = do add_transaction new; pure new
store new (some x) d raw_body = do
  save_transaction (refreshed d raw_body x)
  pure (refreshed d raw_body x)

unfoldable pub create_legacy_transaction : Outside → Payload → Details → Action WebhookResult
unfolding identify_source_wallet parse_amount parse_amount_usd
create_legacy_transaction o p d = do
  info ← identify_source_wallet o d
  amount ← parse_amount o d
  amount_usd ← parse_amount_usd o d
  existing ← gets (transaction_of d.id)
  x ←
      store (new_transaction o.new_id d.external_tx_id d p.raw_body info amount amount_usd) existing
        d p.raw_body
  pure (record {
    status = "processed";
    transaction_id = some x.id;
    provider_tx_id = some d.id;
    amount = some amount;
    vault_id = info_vault info;
    wallet_id = info_wallet info;
    asset_id = info_asset info;
  })

abbrev pub outgoing_of : Outside → Payload → Details → Option Transfer → Action WebhookResult
outgoing_of o p d none = create_legacy_transaction o p d
outgoing_of o p d (some t) = do
  move_transfer o.now p d (with_hash d.tx_hash t)
  pure (processed d t)

unfoldable pub process_outgoing_transfer : Outside → Payload → Details → Action WebhookResult
unfolding find_transfer move_transfer create_legacy_transaction
process_outgoing_transfer o p d = do
  found ← find_transfer d.id d.external_tx_id
  outgoing_of o p d found

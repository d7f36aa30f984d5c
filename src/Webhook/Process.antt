-- ===== src/Webhook/Process.antt =====
-- app/dao/webhook/service.py, `_process_internal_transfer` and `process_webhook`, and
-- app/api/webhook.py, `fireblocks_webhook`.
use custody_service.Common.{
  ℕ, String, Bool, not, Option, none, some, ℤ, pos, ◌-ℤ◌, ltb_ℤ, eqb_ℤ, ◌==◌, update_where,
  is_filled, text_eq, if◌then◌else◌,
}
use custody_service.Models.{Wallet, get_wallet}
use custody_service.Outside.{Outside}
use custody_service.Session.{
  Action, Done, http, pure, modify, raise_if, or_raise, gets, except, commit, rollback, ◌>>=◌, ◌>>◌,
}
use custody_service.Webhook.Payload.{
  Details, Payload, WebhookResult, skipped, is_transaction_event, is_incoming_deposit,
  is_outgoing_withdrawal, is_internal_transfer,
}
use custody_service.Webhook.Wallets.{WalletInfo, identify_wallet, identify_source_wallet}
use custody_service.Webhook.Amounts.{parse_amount, parse_net_amount_decimal}
use custody_service.Webhook.Outgoing.{process_outgoing_transfer}
use custody_service.Webhook.Waiting.{process_pending_balance_queue}
use custody_service.Webhook.Deposits.{update_wallet_balance, process_incoming_deposit}

-- `new_balance = source_wallet.balance - amount; if new_balance < 0: new_balance = 0`
abbrev pub lowered : ℤ → Wallet → ℤ
lowered amount w = if ltb_ℤ (w.balance -ℤ amount) (pos 0) then pos 0 else w.balance -ℤ amount

-- `source_wallet.balance = new_balance`: the wallet's id and what the next flush writes.
abbrev pub Assigned : Type 0
Assigned = Option (ℕ × ℤ)

abbrev pub flushed : Assigned → Action Done
flushed none = pure tt
flushed (some (wallet_id, new_balance)) = modify (λ db. record db {
  wallets =
      update_where (λ (v : Wallet). v.id == wallet_id)
        (λ (v : Wallet). record v { balance = new_balance }) db.wallets;
})

abbrev pub lower_balance : Outside → Details → Option Wallet → Action Assigned
lower_balance o d none = pure none
lower_balance o d (some w) = do
  amount ← parse_net_amount_decimal o d
  pure (some (w.id, lowered amount w))

abbrev pub lower_source_of : Outside → Details → Option ℕ → Action Assigned
lower_source_of o d none = pure none
lower_source_of o d (some i) = do wallet ← gets (λ db. get_wallet db i); lower_balance o d wallet

abbrev pub lower_source : Outside → Details → Option WalletInfo → Action Assigned
lower_source o d none = pure none
lower_source o d (some info) = lower_source_of o d info.wallet_id

abbrev nonzero : ℤ → Option ℤ
nonzero n = if eqb_ℤ n (pos 0) then none else some n

abbrev of_transaction : String → Details → WebhookResult
of_transaction status d = record skipped { status = status; provider_tx_id = some d.id }

-- Both wallets are known to be ours; the waiting transfers are retried afterwards.
abbrev pub received : Outside → Details → WalletInfo → Option ℕ → Action WebhookResult
received o d info none = pure (of_transaction "skipped" d)
received o d info (some wallet_id) = do
  update_wallet_balance o info d
  source ← identify_source_wallet o d
  assigned ← lower_source o d source
  process_pending_balance_queue (flushed assigned) o.now info
  amount ← parse_amount o d
  pure (record {
    status = "processed";
    transaction_id = none;
    provider_tx_id = some d.id;
    amount = nonzero amount;
    vault_id = some info.vault_id;
    wallet_id = some wallet_id;
    asset_id = info.asset_id;
  })

abbrev pub received_by : Outside → Details → Option WalletInfo → Action WebhookResult
received_by o d none = pure (of_transaction "skipped" d)
received_by o d (some info) = received o d info info.wallet_id

unfoldable pub process_internal_transfer : Outside → Details → Action WebhookResult
unfolding identify_wallet identify_source_wallet update_wallet_balance parse_amount
    parse_net_amount_decimal process_pending_balance_queue
process_internal_transfer o d =
    if text_eq d.status "COMPLETED"
    then (do info ← identify_wallet o d; received_by o d info)
    else pure (of_transaction "pending" d)

abbrev pub committed_after : Action WebhookResult → Action WebhookResult
committed_after m = do r ← m; commit; pure r

unfoldable pub process_webhook : Outside → Payload → Action WebhookResult
unfolding is_transaction_event is_incoming_deposit is_outgoing_withdrawal is_internal_transfer
    process_incoming_deposit process_outgoing_transfer process_internal_transfer
process_webhook o p =
    if not (is_transaction_event p)
    then pure skipped
    else if is_incoming_deposit p
    then committed_after (process_incoming_deposit o p.raw_body p.details)
    else if is_outgoing_withdrawal p
    then committed_after (process_outgoing_transfer o p p.details)
    else if is_internal_transfer p
    then committed_after (process_internal_transfer o p.details)
    else pure skipped

-- The settings and the library that checks signatures: whether a signature is asked for, and
-- whether a given one is valid for the body.
pub record Gate : Type 0 where
  pub is_checked : Bool
  pub verify_signature : Option String → Bool

-- A result, or `{"status": "error"}`, which is sent with status 200 too.
pub data WebhookAnswer : Type 0 where
  answered : WebhookResult → WebhookAnswer
  failed : WebhookAnswer

abbrev pub check_signature : Gate → Option String → Action Done
check_signature g signature =
    if g.is_checked
    then (do
      raise_if (not (is_filled signature)) (http 401)
      raise_if (not (g.verify_signature signature)) (http 401))
    else pure tt

-- `none` stands for a body that does not validate.
unfoldable pub answer_to : Outside → Option Payload → Action WebhookAnswer
unfolding process_webhook
answer_to o payload = do
  p ← or_raise payload (http 400)
  except (do r ← process_webhook o p; pure (answered r)) (λ e. do rollback; pure failed)

unfoldable pub fireblocks_webhook :
    Outside → Gate → Option String → Option Payload → Action WebhookAnswer
unfolding answer_to
fireblocks_webhook o g signature payload = do check_signature g signature; answer_to o payload

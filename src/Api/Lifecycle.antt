-- ===== src/Api/Lifecycle.antt =====
-- app/api/transfer.py: the endpoints that move a transfer on, `get_transfer_status`,
-- `approve_transfer`, `reject_transfer`, `update_transfer_signing`, `complete_transfer` and
-- `cancel_transfer_endpoint`. `now` is the time of the request.
use custody_service.Common.{ℕ, String, not, Option, none, some}
use custody_service.Models.{
  Wallet, Vault, Transfer, TransferStatus, known, is_status, is_final, is_cancellable, get_wallet,
}
use custody_service.Ledger.{complete_transfer_balance}
use custody_service.Session.{
  Action, Done, balance_ready, ReadyMessage, Error, http, shortage, value_error, validation_error,
  pure, raise, raise_if, or_raise, except, gets, send, commit, rollback, ◌>>=◌, ◌>>◌,
}
use custody_service.Transfers.{
  get_transfer_by_request_id, save, on_wallets, update_transfer_status, update_transfer_with_wallet,
  reserve_hot_wallet, cancel_transfer, release_if,
}
use custody_service.Api.Responses.{
  TransferResponse, ApproveResponse, transfer_to_response, vault_of,
}

-- `if not transfer: raise HTTPException(404)`
unfoldable pub load : String → Action Transfer
load request_id = do found ← gets (get_transfer_by_request_id request_id); or_raise found (http 404)

unfoldable pub get_transfer_status : String → Action TransferResponse
unfolding load transfer_to_response
get_transfer_status request_id = do
  t ← load request_id
  response ← gets (λ db. transfer_to_response db t)
  or_raise response validation_error

-- The wallet and the vault that pay: those of the reservation made at creation, or a new one.
unfoldable pub paying : ℕ → Transfer → Option ℕ → Action (Wallet × Vault)
unfolding reserve_hot_wallet update_transfer_with_wallet
paying now t none = do
  row ← reserve_hot_wallet t.contract_address t.blockchain t.amount
  update_transfer_with_wallet now t row
  commit
  pure (row.wallet, row.vault)
paying now t (some wallet_id) = do
  wallet ← gets (λ db. get_wallet db wallet_id)
  vault ← gets (λ db. vault_of db t.vault_id)
  w ← or_raise wallet (http 500)
  v ← or_raise vault (http 500)
  pure (w, v)

abbrev pub ready_message : Transfer → Wallet × Vault → ReadyMessage
ready_message t (w, v) = record {
  request_id = t.request_id;
  source_vault_id = v.provider_vault_id;
  source_address = w.address;
  destination_address = t.destination_address;
  destination_tag = t.destination_tag;
  amount = t.amount;
  contract_address = t.contract_address;
  blockchain = t.blockchain;
}

abbrev pub ready_response : Transfer → Wallet × Vault → ApproveResponse
ready_response t (w, v) = record {
  request_id = t.request_id;
  status = TransferStatus.pending;
  source_vault_id = some v.provider_vault_id;
  source_address = some w.address;
}

abbrev pub queued_response : Transfer → ApproveResponse
queued_response t = record {
  request_id = t.request_id;
  status = TransferStatus.pending_balance;
  source_vault_id = none;
  source_address = none;
}

-- The two `except` clauses: a shortage puts the transfer into the queue, anything else is a 500.
unfoldable pub not_approved : Transfer → Error → Action ApproveResponse
not_approved t (shortage s) = do
  save (record t { status = known TransferStatus.pending_balance })
  commit
  pure (queued_response t)
not_approved t e = do rollback; raise (http 500)

unfoldable pub approve_transfer : ℕ → String → Action ApproveResponse
unfolding load paying not_approved is_status
approve_transfer now request_id = do
  t ← load request_id
  raise_if (not (is_status TransferStatus.pending_approval t.status)) (http 400)
  except
      (do
        p ← paying now t t.wallet_id
        send (balance_ready (ready_message t p))
        pure (ready_response t p))
      (not_approved t)

unfoldable pub reject_transfer : ℕ → String → String → Action Done
unfolding load update_transfer_status is_final is_status
reject_transfer now request_id reason = do
  t ← load request_id
  raise_if (is_final t.status) (http 400)
  release_if (is_status TransferStatus.pending t.status) t.wallet_id t.amount
  update_transfer_status now request_id TransferStatus.rejected none none (some reason)
  commit

unfoldable pub update_transfer_signing : ℕ → String → String → Action Done
unfolding load update_transfer_status
update_transfer_signing now request_id provider_tx_id = do
  t ← load request_id
  update_transfer_status now request_id TransferStatus.signing (some provider_tx_id) none none
  commit

-- `if transfer.wallet_id: completed = await complete_transfer_balance(…); if not completed: raise`
unfoldable pub pay_out : Transfer → Option ℕ → Action Done
unfolding complete_transfer_balance
pay_out t none = pure tt
pay_out t (some wallet_id) = do
  completed ← on_wallets (complete_transfer_balance wallet_id t.amount)
  raise_if (not completed) (http 500)

unfoldable pub complete_transfer : ℕ → String → Option String → Action Done
unfolding load pay_out update_transfer_status is_final
complete_transfer now request_id tx_hash = do
  t ← load request_id
  raise_if (is_final t.status) (http 400)
  pay_out t t.wallet_id
  update_transfer_status now request_id TransferStatus.completed none tx_hash none
  commit

-- The `except` clauses of the cancellation.
unfoldable pub not_cancelled : Error → Action Done
not_cancelled value_error = raise (http 400)
not_cancelled e = do rollback; raise (http 500)

unfoldable pub cancel_transfer_endpoint : ℕ → String → String → Action Done
unfolding load cancel_transfer not_cancelled is_cancellable
cancel_transfer_endpoint now request_id reason = do
  t ← load request_id
  raise_if (not (is_cancellable t.status)) (http 400)
  except (do cancel_transfer now t reason; commit) not_cancelled

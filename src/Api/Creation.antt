-- ===== src/Api/Creation.antt =====
-- app/api/transfer.py, `create_external_transfer`: a payout whose HOT wallet the service selects.
-- The amount is reserved before the transfer is recorded; without a balance the transfer waits.
pub mod Drafts
pub mod Answers
use custody_service.Common.{ℕ, String, Bool, true, false, Option, none, some, ℤ, if◌then◌else◌}
use custody_service.Models.{Db, Transfer, TransferStatus}
use custody_service.Ledger.HotWallet.{Row, no_hot_wallet, insufficient_balance}
use custody_service.Outside.{Outside}
use custody_service.Custody.{Custody}
use custody_service.Session.{
  Action, Done, Error, http, shortage, decimal_error, type_error, validation_error, integrity_error,
  transfer_created, CreatedMessage, pure, raise, or_raise, except, gets, send, commit, rollback,
  ◌>>=◌, ◌>>◌,
}
use custody_service.Transfers.{
  NewTransfer, get_transfer_by_request_id, save, create_transfer, new_row, reserve_hot_wallet,
}
use custody_service.Bootstrap.{ensure_asset_in_hot_wallet}
use custody_service.Api.Responses.{TransferResponse, transfer_to_response}
use custody_service.Api.Direct.{
  ExternalTransferRequest, refuse_found, request_id_of, create_external_transfer_direct,
}

-- `select_and_reserve_hot_wallet`; no asset's blockchain equals one that is missing.
unfoldable pub select_for : ExternalTransferRequest → Option String → ℤ → Action Row
unfolding reserve_hot_wallet
select_for q none n = raise (shortage no_hot_wallet)
select_for q (some blockchain) n = reserve_hot_wallet q.contract_address blockchain n

-- `amount=Decimal(request.amount)`
unfoldable pub reserve_now : Outside → ExternalTransferRequest → Action (Option Row)
unfolding select_for
reserve_now o q = do
  n ← or_raise (o.decimal q.amount) decimal_error
  row ← select_for q q.blockchain n
  pure (some row)

-- `except (InsufficientBalanceError, NoHotWalletError)` of the second attempt
abbrev pub still_short : Error → Action (Option Row)
still_short (shortage s) = pure none
still_short e = raise e

abbrev pub retry_if : Bool → Action (Option Row) → Action (Option Row)
retry_if false m = pure none
retry_if true m = except m still_short

-- The two `except` clauses of the first attempt.
unfoldable pub activate_and_retry :
    Outside → Custody → ExternalTransferRequest → Error → Action (Option Row)
unfolding reserve_now ensure_asset_in_hot_wallet
activate_and_retry o c q (shortage no_hot_wallet) = do
  asset_activated ← ensure_asset_in_hot_wallet c o.is_testnet q.blockchain q.contract_address
  retry_if asset_activated (reserve_now o q)
activate_and_retry o c q (shortage insufficient_balance) = pure none
activate_and_retry o c q e = raise e

unfoldable pub reserve_or_wait : Outside → Custody → ExternalTransferRequest → Action (Option Row)
unfolding reserve_now activate_and_retry
reserve_or_wait o c q = except (reserve_now o q) (activate_and_retry o c q)

abbrev status_for : Option Row → TransferStatus
status_for none = TransferStatus.pending_balance
status_for (some r) = TransferStatus.pending_approval

abbrev pub selected_transfer :
    String → ExternalTransferRequest → String → String → ℤ → Option Row → NewTransfer
selected_transfer request_id q blockchain currency amount row = record {
  request_id = request_id;
  blockchain = blockchain;
  currency = currency;
  destination_address = q.to_address;
  amount = amount;
  contract_address = q.contract_address;
  amount_usd = q.amount_usd;
  is_internal = false;
  destination_tag = q.destination_tag;
  note = q.note;
  vault_id = none;
  wallet_id = none;
  asset_id = none;
  source_address = none;
  to_vault_id = none;
  status = status_for row;
}

-- `if balance_reserved and wallet and vault and asset: …`
abbrev pub with_source : ℕ → Option Row → Transfer → Transfer
with_source now none t = t
with_source now (some r) t = record t {
  vault_id = some r.vault.id;
  wallet_id = some r.wallet.id;
  asset_id = some r.asset.id;
  source_address = some r.wallet.address;
  reserved_at = some now;
}

abbrev pub announcement :
    String → ExternalTransferRequest → String → String → ℤ → ℤ → Row → CreatedMessage
announcement request_id q blockchain currency amount dollars r = record {
  request_id = request_id;
  destination_address = q.to_address;
  destination_tag = q.destination_tag;
  amount = amount;
  amount_usd = some dollars;
  asset = currency;
  contract_address = q.contract_address;
  blockchain = blockchain;
  currency = r.asset.symbol;
  network = r.asset.network;
  source_vault_id = some r.vault.provider_vault_id;
  source_address = some r.wallet.address;
  fireblocks_asset_id = some r.asset.asset;
}

-- `float(request.amount_usd)` raises where it is missing.
unfoldable pub announce_reserved :
    String → ExternalTransferRequest → String → String → ℤ → Option Row → Action Done
announce_reserved request_id q blockchain currency amount none = pure tt
announce_reserved request_id q blockchain currency amount (some r) = do
  dollars ← or_raise q.amount_usd type_error
  send (transfer_created (announcement request_id q blockchain currency amount dollars r))

-- The transfer's row, and its commit. The columns `blockchain` and `currency` may not be null.
unfoldable pub record_transfer :
    Outside → String → ExternalTransferRequest → ℤ → Option Row → Action Done
unfolding create_transfer announce_reserved
record_transfer o request_id q n row = do
  blockchain ← or_raise q.blockchain integrity_error
  currency ← or_raise q.asset integrity_error
  t ← create_transfer o.now o.new_id (selected_transfer request_id q blockchain currency n row)
  save (with_source o.now row t)
  commit
  announce_reserved request_id q blockchain currency n row

unfoldable pub answer_for : String → Action TransferResponse
unfolding transfer_to_response
answer_for request_id = do
  found ← gets (get_transfer_by_request_id request_id)
  t ← or_raise found type_error
  response ← gets (λ db. transfer_to_response db t)
  or_raise response validation_error

-- `except HTTPException: raise`, `except Exception: … 500`
abbrev pub http_or_500 : {A : Type 0} → Error → Action A
http_or_500 (http code) = raise (http code)
http_or_500 e = do rollback; raise (http 500)

unfoldable pub create_selected :
    Outside → Custody → String → ExternalTransferRequest → Action TransferResponse
unfolding reserve_or_wait record_transfer answer_for
create_selected o c request_id q =
    except
      (do
        existing ← gets (get_transfer_by_request_id request_id)
        refuse_found existing
        row ← reserve_or_wait o c q
        n ← or_raise (o.decimal q.amount) decimal_error
        record_transfer o request_id q n row
        answer_for request_id)
      http_or_500

-- `if request.from_vault_id and request.asset_id: … direct`
unfoldable pub create_external_transfer :
    Outside → Custody → ExternalTransferRequest → Option ℕ → Option ℕ → Action TransferResponse
unfolding create_selected create_external_transfer_direct
create_external_transfer o c q (some from_vault_id) (some asset_id) =
    create_external_transfer_direct o q from_vault_id asset_id
create_external_transfer o c q (some from_vault_id) none =
    create_selected o c (request_id_of o q.request_id) q
create_external_transfer o c q none asset_id = create_selected o c (request_id_of o q.request_id) q

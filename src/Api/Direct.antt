-- ===== src/Api/Direct.antt =====
-- app/api/transfer.py, `_create_external_transfer_direct`: a payout from a vault that the request
-- names. The amount is reserved, the provider is asked to send, and the transfer is recorded.
pub mod Placement
use custody_service.Common.{
  ℕ, String, false, Option, none, some, ℤ, pos, ◌==◌, ◌&&◌, not, is_filled, select, append_text,
  if◌then◌else◌,
}
use custody_service.Models.{
  Db, Vault, Asset, Wallet, Transfer, TransferStatus, Column, column, get_vault, get_asset,
  has_sufficient_balance,
}
use custody_service.Ledger.{reserve_balance}
use custody_service.Outside.{Outside, ProviderTx, FbTx}
use custody_service.Session.{
  Action, Done, Error, http, decimal_error, provider_error, type_error, validation_error, pure,
  raise, raise_if, or_raise, gets, scalar_one_or_none, commit, ◌>>=◌, ◌>>◌,
}
use custody_service.Transfers.{
  NewTransfer, get_transfer_by_request_id, on_wallets, save, create_transfer,
}
use custody_service.Api.Responses.{TransferResponse, transfer_to_response}

-- `ExternalTransferRequest`
pub record ExternalTransferRequest : Type 0 where
  pub to_address : String
  pub amount : String
  pub request_id : Option String
  pub blockchain : Option String
  pub asset : Option String
  pub contract_address : Option String
  pub amount_usd : Option ℤ
  pub destination_tag : Option String
  pub note : Option String

-- `x or default`, `x if x is not None else default`
abbrev pub text_or : Option String → String → String
text_or none d = d
text_or (some s) d = if is_filled (some s) then s else d

abbrev pub given_or : Option String → Option String → Option String
given_or none d = d
given_or (some s) d = some s

abbrev pub dollars_or : Option ℤ → ℤ
dollars_or none = pos 0
dollars_or (some n) = n

abbrev pub refuse_found : Option Transfer → Action Done
refuse_found none = pure tt
refuse_found (some t) = raise (http 409)

-- `if request.request_id: …`
abbrev pub refuse_existing : Option String → Action Done
refuse_existing none = pure tt
refuse_existing (some i) =
    if is_filled (some i)
    then (do found ← gets (get_transfer_by_request_id i); refuse_found found)
    else pure tt

-- What the provider is asked to send.
abbrev pub payment : String → ExternalTransferRequest → Vault → Asset → ProviderTx
payment request_id q v a = record {
  asset_id = a.asset;
  source = v.provider_vault_id;
  to_vault = none;
  to_address = some q.to_address;
  amount = q.amount;
  external_tx_id = request_id;
  note = if is_filled q.note then q.note else none;
}

abbrev pub direct_transfer :
    String → ExternalTransferRequest → Vault → Asset → Wallet → ℤ → NewTransfer
direct_transfer request_id q v a w amount = record {
  request_id = request_id;
  blockchain = text_or q.blockchain a.blockchain;
  currency = text_or q.asset a.symbol;
  destination_address = q.to_address;
  amount = amount;
  contract_address = given_or q.contract_address a.contract_address;
  amount_usd = some (dollars_or q.amount_usd);
  is_internal = false;
  destination_tag = q.destination_tag;
  note = q.note;
  vault_id = some v.id;
  wallet_id = some w.id;
  asset_id = some a.id;
  source_address = some w.address;
  to_vault_id = none;
  status = TransferStatus.signing;
}

-- `if fb_tx.get("status"): transfer.status = fb_tx["status"]`
abbrev status_or : Option String → Column → Column
status_or none c = c
status_or (some s) c = if is_filled (some s) then column s else c

abbrev pub placed : FbTx → Transfer → Transfer
placed x t = record t {
  provider_tx_id = some x.id;
  tx_hash = x.tx_hash;
  status = status_or x.status t.status;
}

-- Up to the commit.
unfoldable pub place_direct : Outside → String → ExternalTransferRequest → ℕ → ℕ → Action Done
unfolding create_transfer
place_direct o request_id q from_vault_id asset_id = do
  vault ← gets (λ db. get_vault db from_vault_id)
  v ← or_raise vault (http 404)
  asset ← gets (λ db. get_asset db asset_id)
  a ← or_raise asset (http 404)
  refuse_existing q.request_id
  rows ← gets (λ db.
      select (λ (w : Wallet). w.vault_id == from_vault_id && w.asset_id == asset_id) db.wallets)
  wallet ← scalar_one_or_none rows
  w ← or_raise wallet (http 404)
  amount ← or_raise (o.decimal q.amount) decimal_error
  raise_if (not (has_sufficient_balance w amount)) (http 400)
  reserved ← on_wallets (reserve_balance w.id amount)
  raise_if (not reserved) (http 400)
  x ← or_raise (o.create_transaction (payment request_id q v a)) provider_error
  t ← create_transfer o.now o.new_id (direct_transfer request_id q v a w amount)
  save (placed x t)
  commit

-- `request.request_id or f"etr_{uuid4().hex}"`
abbrev pub request_id_of : Outside → Option String → String
request_id_of o given = text_or given (append_text "etr_" o.new_request_id)

unfoldable pub create_external_transfer_direct :
    Outside → ExternalTransferRequest → ℕ → ℕ → Action TransferResponse
unfolding place_direct transfer_to_response
create_external_transfer_direct o q from_vault_id asset_id = do
  place_direct o (request_id_of o q.request_id) q from_vault_id asset_id
  found ← gets (get_transfer_by_request_id (request_id_of o q.request_id))
  t ← or_raise found type_error
  response ← gets (λ db. transfer_to_response db t)
  or_raise response validation_error

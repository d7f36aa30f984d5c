-- ===== src/Api/Internal.antt =====
-- app/api/transfer.py, `create_internal_transfer`: a transfer to another vault or to an address of
-- the provider's whitelist, which needs no approval and is sent at once.
pub mod Atomic
use custody_service.Common.{
  ℕ, String, Bool, true, false, Option, none, some, ℤ, List, [], ◌∷◌, any, not, is_filled, text_eq,
  if◌then◌else◌, append_text,
}
use custody_service.Models.{
  Db, Vault, Asset, Wallet, TransferStatus, get_vault, get_asset, has_sufficient_balance,
}
use custody_service.Ledger.{reserve_balance}
use custody_service.Outside.{Outside, ProviderTx}
use custody_service.Session.{
  Action, Done, http, decimal_error, provider_error, type_error, pure, raise, raise_if, or_raise,
  except, gets, commit, scalar_one_or_none, ◌>>=◌, ◌>>◌,
}
use custody_service.Transfers.{NewTransfer, on_wallets, save, create_transfer}
use custody_service.Activation.{wallets_for}
use custody_service.Api.Responses.{TransferResponse}
use custody_service.Api.Direct.{text_or, given_or, dollars_or, refuse_existing, placed}
use custody_service.Api.Creation.{answer_for, http_or_500}

pub record InternalTransferRequest : Type 0 where
  pub from_vault_id : ℕ
  pub asset_id : ℕ
  pub amount : String
  pub to_vault_id : Option ℕ
  pub to_address : Option String
  pub request_id : Option String
  pub blockchain : Option String
  pub asset : Option String
  pub contract_address : Option String
  pub amount_usd : Option ℤ
  pub destination_tag : Option String
  pub note : Option String

-- `to_address` and `to_vault_id`
pub record Destination : Type 0 where
  pub address : String
  pub vault_id : Option ℕ

abbrev is_listed : String → List String → Bool
is_listed address = any (λ a. text_eq a address)

abbrev pub whitelisted : Outside → Vault → Asset → Option String → Action Destination
whitelisted o v a none = raise (http 400)
whitelisted o v a (some address) = if text_eq address "" then raise (http 400) else (do
  whitelist ← or_raise (o.whitelist v.provider_vault_id a.asset) provider_error
  raise_if (not (is_listed address whitelist)) (http 400)
  pure (record { address = address; vault_id = none }))

-- `if request.to_vault_id: … elif request.to_address: … else: 400`
unfoldable pub destination_of :
    Outside → Vault → Asset → InternalTransferRequest → Option ℕ → Action Destination
destination_of o v a q none = whitelisted o v a q.to_address
destination_of o v a q (some i) = do
  found ← gets (λ db. get_vault db i)
  or_raise found (http 404)
  rows ← gets (wallets_for i q.asset_id)
  wallet ← scalar_one_or_none rows
  w ← or_raise wallet (http 404)
  pure (record { address = w.address; vault_id = some i })

abbrev pub internal_payment :
    String → InternalTransferRequest → Vault → Asset → Option String → Option String → ProviderTx
internal_payment request_id q v a to_vault to_address = record {
  asset_id = a.asset;
  source = v.provider_vault_id;
  to_vault = to_vault;
  to_address = to_address;
  amount = q.amount;
  external_tx_id = request_id;
  note = if is_filled q.note then q.note else none;
}

-- `if to_vault_id: to_vault = await db.get(…)`; the vault was found before.
abbrev pub payment_to :
    String → InternalTransferRequest → Vault → Asset → Destination → Option ℕ → Action ProviderTx
payment_to request_id q v a d none = pure (internal_payment request_id q v a none (some d.address))
payment_to request_id q v a d (some i) = do
  found ← gets (λ db. get_vault db i)
  to_vault ← or_raise found type_error
  pure (internal_payment request_id q v a (some to_vault.provider_vault_id) none)

abbrev pub internal_transfer :
    String → InternalTransferRequest → Vault → Asset → Wallet → ℤ → Destination → NewTransfer
internal_transfer request_id q v a w amount d = record {
  request_id = request_id;
  blockchain = text_or q.blockchain a.blockchain;
  currency = text_or q.asset a.symbol;
  destination_address = d.address;
  amount = amount;
  contract_address = given_or q.contract_address a.contract_address;
  amount_usd = some (dollars_or q.amount_usd);
  is_internal = true;
  destination_tag = q.destination_tag;
  note = q.note;
  vault_id = some v.id;
  wallet_id = some w.id;
  asset_id = some a.id;
  source_address = some w.address;
  to_vault_id = d.vault_id;
  status = TransferStatus.signing;
}

-- The body of the `try`.
unfoldable pub send_internal :
    Outside
    → String
    → InternalTransferRequest
    → Vault
    → Asset
    → Wallet
    → ℤ
    → Destination
    → Action TransferResponse
unfolding create_transfer answer_for
send_internal o request_id q v a w n d = do
  reserved ← on_wallets (reserve_balance w.id n)
  raise_if (not reserved) (http 400)
  tx ← payment_to request_id q v a d d.vault_id
  x ← or_raise (o.create_transaction tx) provider_error
  t ← create_transfer o.now o.new_id (internal_transfer request_id q v a w n d)
  save (placed x t)
  commit
  answer_for request_id

-- `request.request_id or f"itr_{uuid4().hex}"`
abbrev pub internal_id : Outside → Option String → String
internal_id o given = text_or given (append_text "itr_" o.new_request_id)

unfoldable pub create_internal_transfer :
    Outside → InternalTransferRequest → Action TransferResponse
unfolding send_internal destination_of
create_internal_transfer o q = do
  vault ← gets (λ db. get_vault db q.from_vault_id)
  v ← or_raise vault (http 404)
  asset ← gets (λ db. get_asset db q.asset_id)
  a ← or_raise asset (http 404)
  refuse_existing q.request_id
  rows ← gets (wallets_for q.from_vault_id q.asset_id)
  wallet ← scalar_one_or_none rows
  w ← or_raise wallet (http 404)
  n ← or_raise (o.decimal q.amount) decimal_error
  raise_if (not (has_sufficient_balance w n)) (http 400)
  d ← destination_of o v a q q.to_vault_id
  except (send_internal o (internal_id o q.request_id) q v a w n d) http_or_500

-- ===== src/Api/Responses.antt =====
-- The bodies that the endpoints answer with (app/schemas/transfer.py), and the message that a
-- transfer with a reserved balance is announced by.
use mathlib.Core.Option
use custody_service.Common.{pos, ℕ, String, Bool, Option, none, some, ℤ}
use custody_service.Models.{
  Db, Vault, Asset, Transfer, TransferStatus, Column, get_vault, get_asset,
}
use custody_service.Session.{CreatedMessage}

pub record TransferResponse : Type 0 where
  pub transfer_id : ℕ
  pub request_id : String
  pub status : Column
  pub is_internal : Bool
  pub from_vault_id : Option ℕ
  pub source_vault_id : Option String
  pub source_address : Option String
  pub destination_address : String
  pub to_address : String
  pub destination_tag : Option String
  pub to_vault_id : Option ℕ
  pub amount : ℤ
  pub amount_usd : ℤ
  pub asset : String
  pub blockchain : String
  pub contract_address : Option String
  pub provider_tx_id : Option String
  pub tx_hash : Option String
  pub error_message : Option String
  pub created_at : ℕ

pub record ApproveResponse : Type 0 where
  pub request_id : String
  pub status : TransferStatus
  pub source_vault_id : Option String
  pub source_address : Option String

-- `db.get(Model, id)` for an id that may be missing.
abbrev pub vault_of : Db → Option ℕ → Option Vault
vault_of db none = none
vault_of db (some i) = get_vault db i

abbrev pub asset_of : Db → Option ℕ → Option Asset
asset_of db none = none
asset_of db (some i) = get_asset db i

abbrev pub provider_id : Option Vault → Option String
provider_id none = none
provider_id (some v) = some v.provider_vault_id

unfoldable pub response_for : Db → Transfer → ℤ → TransferResponse
response_for db t amount_usd = record {
  transfer_id = t.id;
  request_id = t.request_id;
  status = t.status;
  is_internal = t.is_internal;
  from_vault_id = t.vault_id;
  source_vault_id = provider_id (vault_of db t.vault_id);
  source_address = t.source_address;
  destination_address = t.destination_address;
  to_address = t.destination_address;
  destination_tag = t.destination_tag;
  to_vault_id = t.to_vault_id;
  amount = t.amount;
  amount_usd = amount_usd;
  asset = t.currency;
  blockchain = t.blockchain;
  contract_address = t.contract_address;
  provider_tx_id = t.provider_tx_id;
  tx_hash = t.tx_hash;
  error_message = t.error_message;
  created_at = t.created_at;
}

-- `_transfer_to_response`; the response wants an `amount_usd`, so that without it the validation of
-- the response fails.
unfoldable pub transfer_to_response : Db → Transfer → Option TransferResponse
unfolding response_for
transfer_to_response db t = Option.map (response_for db t) t.amount_usd

abbrev asset_id_text : Option Asset → Option String
asset_id_text none = none
asset_id_text (some a) = some a.asset

abbrev symbol_or : Option Asset → String → String
symbol_or none s = s
symbol_or (some a) s = a.symbol

abbrev network_or : Option Asset → Option String → String
network_or none none = ""
network_or none (some n) = n
network_or (some a) n = a.network

-- `float(transfer.amount_usd) if transfer.amount_usd else 0`
abbrev dollars_or_zero : Option ℤ → ℤ
dollars_or_zero none = pos 0
dollars_or_zero (some n) = n

-- The message for a transfer that left the queue, from its row and those of its vault and asset.
unfoldable pub created_message : Db → Transfer → CreatedMessage
created_message db t = record {
  request_id = t.request_id;
  destination_address = t.destination_address;
  destination_tag = t.destination_tag;
  amount = t.amount;
  amount_usd = some (dollars_or_zero t.amount_usd);
  asset = t.currency;
  contract_address = t.contract_address;
  blockchain = t.blockchain;
  currency = symbol_or (asset_of db t.asset_id) t.currency;
  network = network_or (asset_of db t.asset_id) t.network;
  source_vault_id = provider_id (vault_of db t.vault_id);
  source_address = t.source_address;
  fireblocks_asset_id = asset_id_text (asset_of db t.asset_id);
}

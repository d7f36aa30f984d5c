-- ===== src/Models/Rows.antt =====
-- app/models/{vault,asset,wallet,transfer,transaction}.py: one record for each table, a field for
-- each column that the modelled code reads or writes. A UUID and a time are numbers.
use custody_service.Common.{ℕ, String, Bool, Option, ℤ, ◌-ℤ◌, leb_ℤ}
use custody_service.Models.Status.{VaultStatus, VaultType, Column}

pub record Vault : Type 0 where
  pub id : ℕ
  pub provider_vault_id : String
  pub name : String
  pub vault_type : VaultType
  pub is_primary : Bool
  pub min_balance_usd : Option ℤ
  pub max_balance_usd : Option ℤ
  pub target_balance_percent : Option ℕ
  pub auto_refill_enabled : Bool
  pub auto_refill_threshold_percent : Option ℕ
  pub auto_refill_target_percent : Option ℕ
  pub status : VaultStatus
  pub is_active : Bool
  pub description : Option String

pub record Asset : Type 0 where
  pub id : ℕ
  pub asset : String
  pub provider : String
  pub symbol : String
  pub blockchain : String
  pub network : String
  pub contract_address : Option String
  pub testnet : Option String
  pub decimals : ℕ
  pub is_active : Bool
  pub is_native : Bool

pub record Wallet : Type 0 where
  pub id : ℕ
  pub vault_id : ℕ
  pub asset_id : ℕ
  pub address : String
  pub legacy_address : Option String
  pub tag : Option String
  pub balance : ℤ
  pub pending_amount : ℤ

pub record Transfer : Type 0 where
  pub id : ℕ
  pub request_id : String
  pub is_internal : Bool
  pub vault_id : Option ℕ
  pub wallet_id : Option ℕ
  pub asset_id : Option ℕ
  pub source_address : Option String
  pub currency : String
  pub contract_address : Option String
  pub blockchain : String
  pub network : Option String
  pub destination_address : String
  pub destination_tag : Option String
  pub to_vault_id : Option ℕ
  pub amount : ℤ
  pub amount_usd : Option ℤ
  pub status : Column
  pub provider_tx_id : Option String
  pub tx_hash : Option String
  pub note : Option String
  pub reserved_at : Option ℕ
  pub completed_at : Option ℕ
  pub created_at : ℕ
  pub error_message : Option String
  pub retry_count : ℕ

pub record Transaction : Type 0 where
  pub id : ℕ
  pub request_id : Option String
  pub provider_tx_id : String
  pub tx_hash : Option String
  pub vault_id : Option ℕ
  pub wallet_id : Option ℕ
  pub asset_id : Option ℕ
  pub amount : ℤ
  pub amount_usd : Option ℤ
  pub status : String
  pub num_confirmations : Option ℕ
  pub is_internal : Bool
  pub source_address : Option String
  pub destination_address : Option String
  pub raw_webhook_data : Option String

-- `WalletModel.available_balance`
abbrev pub available_balance : Wallet → ℤ
available_balance w = w.balance -ℤ w.pending_amount

-- `WalletModel.has_sufficient_balance`
abbrev pub has_sufficient_balance : Wallet → ℤ → Bool
has_sufficient_balance w amount = leb_ℤ amount (available_balance w)

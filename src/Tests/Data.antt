-- ===== src/Tests/Data.antt =====
-- Two HOT vaults with a wallet each for one coin, and transfers in several states.
use custody_service.Common.{
  ℕ, String, Bool, true, false, Option, none, some, List, [], ◌∷◌, ℤ, pos, ◌+◌,
}
use custody_service.Models.{
  Db, Vault, Asset, Wallet, Transfer, TransferStatus, Column, known, VaultType, VaultStatus,
}
use custody_service.Outside.{Outside}
use custody_service.Custody.{Custody, answer}
use custody_service.Session.{World, idle}
use custody_service.Api.Direct.{ExternalTransferRequest}
use custody_service.Api.Internal.{InternalTransferRequest}

abbrev pub hot_vault : ℕ → String → Bool → Vault
hot_vault id name is_primary = record {
  id = id;
  provider_vault_id = name;
  name = name;
  vault_type = VaultType.hot;
  is_primary = is_primary;
  min_balance_usd = none;
  max_balance_usd = none;
  target_balance_percent = none;
  auto_refill_enabled = false;
  auto_refill_threshold_percent = none;
  auto_refill_target_percent = none;
  status = VaultStatus.available;
  is_active = true;
  description = none;
}

abbrev pub ether : Asset
ether = record {
  id = 1;
  asset = "ETH";
  provider = "fireblocks";
  symbol = "ETH";
  blockchain = "ETHEREUM";
  network = "NATIVE";
  contract_address = none;
  testnet = none;
  decimals = 18;
  is_active = true;
  is_native = true;
}

abbrev pub wallet : ℕ → ℕ → ℤ → ℤ → Wallet
wallet id vault_id balance pending_amount = record {
  id = id;
  vault_id = vault_id;
  asset_id = 1;
  address = "0xa";
  legacy_address = none;
  tag = none;
  balance = balance;
  pending_amount = pending_amount;
}

abbrev transfer : ℕ → String → Column → Option ℕ → ℤ → Transfer
transfer id request_id status wallet_id amount = record {
  id = id;
  request_id = request_id;
  is_internal = false;
  vault_id = some 1;
  wallet_id = wallet_id;
  asset_id = some 1;
  source_address = none;
  currency = "ETH";
  contract_address = none;
  blockchain = "Ethereum";
  network = none;
  destination_address = "0xb";
  destination_tag = none;
  to_vault_id = none;
  amount = amount;
  amount_usd = some (pos 5);
  status = status;
  provider_tx_id = none;
  tx_hash = none;
  note = none;
  reserved_at = none;
  completed_at = none;
  created_at = id;
  error_message = none;
  retry_count = 0;
}

-- The first wallet has 40 of its 100 reserved.
abbrev pub wallets : List Wallet
wallets = wallet 10 1 (pos 100) (pos 40) ∷ wallet 11 2 (pos 500) (pos 0) ∷ []

abbrev pub fresh : Transfer
fresh = transfer 1 "fresh" (known TransferStatus.pending_approval) none (pos 70)

-- A reservation was made at creation.
abbrev pub reserved : Transfer
reserved = transfer 2 "reserved" (known TransferStatus.pending_approval) (some 10) (pos 15)

abbrev pub pending : Transfer
pending = transfer 3 "pending" (known TransferStatus.pending) (some 10) (pos 25)

abbrev pub done : Transfer
done = transfer 4 "done" (known TransferStatus.completed) (some 10) (pos 5)

abbrev pub waiting : Transfer
waiting = transfer 5 "waiting" (known TransferStatus.pending_balance) none (pos 800)

abbrev pub sent : Transfer
sent = record (transfer 6 "sent" (known TransferStatus.broadcasting) (some 10) (pos 20)) {
  provider_tx_id = some "fb-6";
}

abbrev pub db : Db
db = record {
  vaults = hot_vault 1 "one" true ∷ hot_vault 2 "two" false ∷ [];
  assets = ether ∷ [];
  wallets = wallets;
  transfers = fresh ∷ reserved ∷ pending ∷ done ∷ waiting ∷ sent ∷ [];
  transactions = [];
}

abbrev pub world : World
world = idle db []

-- A provider that gives one address to every asset.
abbrev pub custody : Custody
custody = record {
  create_vault = λ name. answer name;
  get_vaults = λ prefix. answer [];
  find_asset_by_contract_or_currency = λ s c t. answer (some s);
  activate_asset = λ v a. answer (record { address = "0xc"; legacy_address = none; tag = none });
  get_vault_asset_info = λ v a. answer none;
  new_id = λ k. k + 100;
}

-- A provider that takes every transaction, in a service that reads every amount as 20.
abbrev pub taking : Outside
taking = record {
  now = 9;
  new_id = 77;
  new_request_id = "unused";
  is_testnet = false;
  decimal = λ s. some (pos 20);
  supported_assets = none;
  create_transaction =
      λ t. some (record { id = "fb-77"; tx_hash = none; status = some "SUBMITTED" });
  whitelist = λ a b. none;
}

-- The payout's wallet is selected; the move is to another vault.
abbrev pub payout : ExternalTransferRequest
payout = record {
  to_address = "0xb";
  amount = "20";
  request_id = some "new";
  blockchain = some "ethereum";
  asset = some "ETH";
  contract_address = none;
  amount_usd = some (pos 5);
  destination_tag = none;
  note = none;
}

abbrev pub move : InternalTransferRequest
move = record {
  from_vault_id = 2;
  asset_id = 1;
  amount = "20";
  to_vault_id = some 1;
  to_address = none;
  request_id = some "move";
  blockchain = none;
  asset = none;
  contract_address = none;
  amount_usd = none;
  destination_tag = none;
  note = none;
}

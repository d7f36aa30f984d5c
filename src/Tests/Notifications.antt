-- ===== src/Tests/Notifications.antt =====
-- Notifications of Fireblocks and messages of the workflow.
use custody_service.Common.{
  String, ◌≡◌, refl, true, false, none, some, [], pos, ◌&&◌, ◌||◌, if◌then◌else◌, ◌≢◌, upper,
}
use custody_service.Outside.{Outside}
use custody_service.Session.{ok, respond, idle, PayoutStatus}
use custody_service.Api.Closing.{callback}
use custody_service.Webhook.Payload.{
  Payload, is_transaction_event, is_transfer, is_vault, is_incoming_deposit, is_internal_transfer,
  is_outgoing_withdrawal,
}
use custody_service.Webhook.Process.{fireblocks_webhook}
use custody_service.Webhook.Process.{Gate}
use custody_service.Webhook.Settled.{is_refused, Settles, fireblocks_webhook-Settles}
use custody_service.Webhook.Amounts.{map_fireblocks_to_invoice_status}
use custody_service.Webhook.Status.{agrees, move_of-agrees}
use custody_service.Webhook.Moves.{move_of}
use custody_service.Webhook.Kinds.{kinds_partition}
use custody_service.Webhook.Outgoing.{process_outgoing_transfer}
use custody_service.Webhook.Moves.{named, after_move, process_outgoing_transfer-after_move}
use custody_service.Broker.{
  handle_transfer_rejected, ApprovedMessage, refused, handle_transfer_approved,
}
use custody_service.Broker.Redelivery.{
  is_open, rejected_row, freed, attempted, announced, handle_transfer_rejected-Rejects,
  handle_transfer_rejected-twice, handle_transfer_approved-Attempts,
}
use custody_service.Api.Completion.{saved}
use custody_service.Fireblocks.Assets.{FbAsset, Metadata, parse_fireblocks_asset}
use custody_service.Fireblocks.Natives.{Native, native_of, mapping_native_tokens}
use custody_service.Fireblocks.Consistency.{
  IsConsistent, is_marked, native_of-IsConsistent, parse_fireblocks_asset-testnet,
}
use custody_service.Tests.Data.{db, world, sent, pending}

-- A provider that refuses everything, and a reader of decimals that knows one text.
abbrev outside : Outside
outside = record {
  now = 9;
  new_id = 77;
  new_request_id = "new";
  is_testnet = false;
  decimal = λ s. some (pos 20);
  supported_assets = none;
  create_transaction = λ t. none;
  whitelist = λ a b. none;
}

abbrev notification : String → Payload
notification status = record {
  event_type = "transaction.status.updated";
  details = record {
    id = "fb-6";
    external_tx_id = some "sent";
    status = status;
    sub_status = none;
    tx_hash = some "0x6";
    operation = some "TRANSFER";
    asset_id = some "ETH";
    source = some (record { type = "VAULT_ACCOUNT"; id = some "one" });
    source_address = none;
    destination = none;
    destination_address = some "0xb";
    amount_info = none;
    num_of_confirmations = none;
    amount = some "20";
    net_amount = none;
    amount_usd = none;
  };
  raw_body = "";
}

kinds_partition_example :
    let p = notification "COMPLETED" in
    ((is_incoming_deposit p && is_internal_transfer p) ≡ false)
    × ((is_incoming_deposit p && is_outgoing_withdrawal p) ≡ false)
    × ((is_internal_transfer p && is_outgoing_withdrawal p) ≡ false)
    × ((is_incoming_deposit p || (is_internal_transfer p || is_outgoing_withdrawal p)) ≡ (
        is_transaction_event p
        && (is_transfer p.details
            && (is_vault p.details.source || is_vault p.details.destination))))
kinds_partition_example = kinds_partition (notification "COMPLETED")

process_outgoing_transfer-after_move_example :
    let d = (notification "COMPLETED").details in
    process_outgoing_transfer outside (notification "COMPLETED") d world
    ≡ (ok (named d sent), after_move 9 d sent world)
unfolding is_transaction_event
process_outgoing_transfer-after_move_example =
    process_outgoing_transfer-after_move outside (notification "COMPLETED") sent world refl refl

handle_transfer_rejected-Rejects_example :
    respond (handle_transfer_rejected "pending" none) world ≡ (
      ok tt,
      idle
          (saved
            (rejected_row none pending)
            (record db { wallets = freed (some 10) (pos 25) db.wallets }))
          (callback pending PayoutStatus.rejected []),
    )
handle_transfer_rejected-Rejects_example =
    handle_transfer_rejected-Rejects "pending" none db [] pending refl

handle_transfer_rejected-twice_example :
    (respond
      (handle_transfer_rejected "pending" none)
      (respond (handle_transfer_rejected "pending" none) world).1).1.db.wallets
    ≡ freed (some 10) (pos 25) (freed (some 10) (pos 25) db.wallets)
handle_transfer_rejected-twice_example =
    handle_transfer_rejected-twice "pending" none db [] pending refl

abbrev message : ApprovedMessage
message = record {
  request_id = "pending";
  jwt_token = some "jwt";
  api_key = some "key";
  transaction_body = some "{}";
}

handle_transfer_approved-Attempts_example :
    respond (handle_transfer_approved (λ m. refused "policy") message) world ≡ (
      if is_open pending
      then (
        ok tt,
        idle
            (saved (attempted (refused "policy") pending) db)
            (announced (refused "policy") pending []),
      )
      else (ok tt, world))
handle_transfer_approved-Attempts_example =
    handle_transfer_approved-Attempts (λ m. refused "policy") message db [] pending refl refl

abbrev polygon : Native
polygon = record {
  symbol = "MATIC";
  asset_id = "AMOY_POLYGON_TEST";
  blockchain = "POLYGON";
  currency = "MATIC";
  network = "AMOY";
  is_testnet = true;
}

native_of-IsConsistent_example : IsConsistent polygon
unfolding native_of mapping_native_tokens upper
native_of-IsConsistent_example = native_of-IsConsistent true "matic" polygon refl

abbrev usdc_entry : FbAsset
usdc_entry = record {
  id = "USDC_ETH_TEST6_0GER";
  contract_address = some "0xc";
  issuer_address = none;
  type = some "ERC20";
  native_asset = none;
  symbol = none;
  decimals = some 6;
}

abbrev usdc_meta : Metadata
usdc_meta = record {
  blockchain = "ETHEREUM";
  currency = "USDC";
  network = "ERC20";
  decimals = 6;
  is_testnet = true;
}

parse_fireblocks_asset-testnet_example :
    (true ≡ is_marked (upper "USDC_ETH_TEST6_0GER"))
    × ((t : String) → usdc_entry.type ≡ some t → t ≢ "" → "ERC20" ≡ t)
unfolding parse_fireblocks_asset
parse_fireblocks_asset-testnet_example =
    parse_fireblocks_asset-testnet "USDC_ETH_TEST6_0GER" usdc_entry usdc_meta refl

abbrev gate : Gate
gate = record { is_checked = true; verify_signature = λ s. true }

-- The notification of the transfer that was sent, with a signature.
fireblocks_webhook-Settles_example :
    Settles outside db [] (is_refused gate (some "signature")) (some (notification "COMPLETED")) (
      respond
        (fireblocks_webhook outside gate (some "signature") (some (notification "COMPLETED")))
        (idle db []))
fireblocks_webhook-Settles_example =
    fireblocks_webhook-Settles outside gate (some "signature") (some (notification "COMPLETED")) db
      []

move_of-agrees_example :
    agrees (move_of "BLOCKED") (map_fireblocks_to_invoice_status "BLOCKED") ≡ true
move_of-agrees_example = move_of-agrees "BLOCKED"

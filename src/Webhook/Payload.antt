-- ===== src/Webhook/Payload.antt =====
-- app/schemas/webhooks.py: the notifications of Fireblocks, and how they are told apart.
use custody_service.Common.{
  ℕ, String, Bool, false, ◌&&◌, ◌||◌, not, Option, none, some, codes, starts_with, text_eq,
  if◌then◌else◌, ℤ,
}

pub record Peer : Type 0 where
  pub type : String
  pub id : Option String

pub record AmountInfo : Type 0 where
  pub amount : Option String
  pub net_amount : Option String
  pub amount_usd : Option String

-- `TransactionDetailsSchema`, the fields that are read. The deprecated floating-point fields
-- `amount`, `netAmount`, `amountUSD` are kept as the text that `str` gives for them.
pub record Details : Type 0 where
  pub id : String
  pub external_tx_id : Option String
  pub status : String
  pub sub_status : Option String
  pub tx_hash : Option String
  pub operation : Option String
  pub asset_id : Option String
  pub source : Option Peer
  pub source_address : Option String
  pub destination : Option Peer
  pub destination_address : Option String
  pub amount_info : Option AmountInfo
  pub num_of_confirmations : Option ℕ
  pub amount : Option String
  pub net_amount : Option String
  pub amount_usd : Option String

-- `FireblocksWebhookPayloadSchema` whose `data` validates as transaction details; `raw_body` is
-- the text of the request.
pub record Payload : Type 0 where
  pub event_type : String
  pub details : Details
  pub raw_body : String

-- `self.eventType.startswith("transaction.")`
unfoldable pub is_transaction_event : Payload → Bool
is_transaction_event p = starts_with (codes p.event_type) (codes "transaction.")

unfoldable pub get_transaction_details : Payload → Option Details
get_transaction_details p = if is_transaction_event p then some p.details else none

abbrev pub is_text : String → Option String → Bool
is_text s none = false
is_text s (some t) = text_eq t s

-- `peer and peer.type == "VAULT_ACCOUNT"`
unfoldable pub is_vault : Option Peer → Bool
is_vault none = false
is_vault (some p) = text_eq p.type "VAULT_ACCOUNT"

abbrev pub is_transfer : Details → Bool
is_transfer d = is_text "TRANSFER" d.operation

abbrev incoming : Option Details → Bool
incoming none = false
incoming (some d) = is_transfer d && (is_vault d.destination && not (is_vault d.source))

abbrev internal : Option Details → Bool
internal none = false
internal (some d) = is_transfer d && (is_vault d.source && is_vault d.destination)

abbrev outgoing : Option Details → Bool
outgoing none = false
outgoing (some d) = is_transfer d && (is_vault d.source && not (is_vault d.destination))

unfoldable pub is_incoming_deposit : Payload → Bool
unfolding is_transaction_event get_transaction_details
is_incoming_deposit p = is_transaction_event p && incoming (get_transaction_details p)

unfoldable pub is_internal_transfer : Payload → Bool
unfolding is_transaction_event get_transaction_details
is_internal_transfer p = is_transaction_event p && internal (get_transaction_details p)

unfoldable pub is_outgoing_withdrawal : Payload → Bool
unfolding is_transaction_event get_transaction_details
is_outgoing_withdrawal p = is_transaction_event p && outgoing (get_transaction_details p)

-- `status in ("REJECTED", "BLOCKED", "FAILED", "CANCELLED", "TIMEOUT")`
unfoldable pub is_failure : String → Bool
is_failure s =
    text_eq s "REJECTED"
    || (text_eq s "BLOCKED"
        || (text_eq s "FAILED" || (text_eq s "CANCELLED" || text_eq s "TIMEOUT")))

abbrev failed : Option Details → Bool
failed none = false
failed (some d) = is_failure d.status

unfoldable pub is_failed_or_rejected : Payload → Bool
unfolding is_failure get_transaction_details
is_failed_or_rejected p = failed (get_transaction_details p)

-- `WebhookProcessResultSchema`
pub record WebhookResult : Type 0 where
  pub status : String
  pub transaction_id : Option ℕ
  pub provider_tx_id : Option String
  pub amount : Option ℤ
  pub vault_id : Option ℕ
  pub wallet_id : Option ℕ
  pub asset_id : Option ℕ

abbrev pub skipped : WebhookResult
skipped = record {
  status = "skipped";
  transaction_id = none;
  provider_tx_id = none;
  amount = none;
  vault_id = none;
  wallet_id = none;
  asset_id = none;
}

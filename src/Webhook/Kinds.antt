-- ===== src/Webhook/Kinds.antt =====
-- A notification is of one kind at most.
use custody_service.Common.{◌≡◌, false, arith, ◌&&◌, ◌||◌}
use custody_service.Webhook.Payload.{
  Payload, is_transaction_event, is_transfer, is_vault, is_incoming_deposit, is_internal_transfer,
  is_outgoing_withdrawal,
}

-- Deposit, internal transfer and withdrawal exclude one another, and a notification is one of the
-- three exactly if it is a transaction event, its operation is TRANSFER, and its source or its
-- destination is a vault account.
pub kinds_partition :
    (p : Payload)
    → ((is_incoming_deposit p && is_internal_transfer p) ≡ false)
      × ((is_incoming_deposit p && is_outgoing_withdrawal p) ≡ false)
      × ((is_internal_transfer p && is_outgoing_withdrawal p) ≡ false)
      × ((is_incoming_deposit p || (is_internal_transfer p || is_outgoing_withdrawal p)) ≡ (
          is_transaction_event p
          && (is_transfer p.details
              && (is_vault p.details.source || is_vault p.details.destination))))
unfolding is_incoming_deposit is_internal_transfer is_outgoing_withdrawal
kinds_partition p = ground arith

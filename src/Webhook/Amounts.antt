-- ===== src/Webhook/Amounts.antt =====
-- app/dao/webhook/parse.py and utils.py: the amounts of a notification, and the invoice status that
-- the backend is told.
use custody_service.Common.{
  String, Option, none, some, List, [], ◌∷◌, ℤ, pos, is_filled, text_eq, if◌then◌else◌,
}
use custody_service.Models.{InvoiceStatus}
use custody_service.Outside.{Outside}
use custody_service.Session.{Action, decimal_error, pure, or_raise, ◌>>=◌}
use custody_service.Webhook.Payload.{AmountInfo, Details}

-- `info and info.field`, then `field is not None`: the text that is read.
abbrev pub text_of :
    (AmountInfo → Option String) → Option AmountInfo → Option String → Option String
text_of field none old = old
text_of field (some i) old = if is_filled (field i) then field i else old

abbrev pub number : Outside → Option String → Action (Option ℤ)
number o none = pure none
number o (some s) = do n ← or_raise (o.decimal s) decimal_error; pure (some n)

abbrev or_zero : Option ℤ → ℤ
or_zero none = pos 0
or_zero (some n) = n

unfoldable pub parse_amount : Outside → Details → Action ℤ
parse_amount o d = do
  n ← number o (text_of (λ (i : AmountInfo). i.amount) d.amount_info d.amount)
  pure (or_zero n)

abbrev pub or_amount : Outside → Details → Option ℤ → Action ℤ
or_amount o d none = parse_amount o d
or_amount o d (some n) = pure n

unfoldable pub parse_net_amount_decimal : Outside → Details → Action ℤ
unfolding parse_amount
parse_net_amount_decimal o d = do
  n ← number o (text_of (λ (i : AmountInfo). i.net_amount) d.amount_info d.net_amount)
  or_amount o d n

unfoldable pub parse_amount_usd : Outside → Details → Action (Option ℤ)
parse_amount_usd o d =
    number o (text_of (λ (i : AmountInfo). i.amount_usd) d.amount_info d.amount_usd)

unfoldable pub fireblocks_to_invoice_status : List (String × InvoiceStatus)
fireblocks_to_invoice_status =
    ("SUBMITTED", InvoiceStatus.pending)
    ∷ ("QUEUED", InvoiceStatus.pending)
    ∷ ("PENDING_SIGNATURE", InvoiceStatus.pending)
    ∷ ("PENDING_AUTHORIZATION", InvoiceStatus.pending)
    ∷ ("PENDING_3RD_PARTY_MANUAL_APPROVAL", InvoiceStatus.pending)
    ∷ ("PENDING_3RD_PARTY", InvoiceStatus.pending)
    ∷ ("PENDING", InvoiceStatus.pending)
    ∷ ("BROADCASTING", InvoiceStatus.pending)
    ∷ ("CONFIRMING", InvoiceStatus.confirming)
    ∷ ("CONFIRMED", InvoiceStatus.paid)
    ∷ ("COMPLETED", InvoiceStatus.paid)
    ∷ ("PARTIALLY_COMPLETED", InvoiceStatus.paid)
    ∷ ("CANCELLING", InvoiceStatus.canceled)
    ∷ ("CANCELLED", InvoiceStatus.canceled)
    ∷ ("REJECTED", InvoiceStatus.canceled)
    ∷ ("FAILED", InvoiceStatus.failed)
    ∷ ("TIMEOUT", InvoiceStatus.timeout)
    ∷ ("BLOCKED", InvoiceStatus.failed)
    ∷ []

-- `dict.get(key, default)`
unfoldable pub get_status : String → List (String × InvoiceStatus) → InvoiceStatus
get_status s [] = InvoiceStatus.pending
get_status s ((k, v) ∷ table) = if text_eq s k then v else get_status s table

unfoldable pub map_fireblocks_to_invoice_status : String → InvoiceStatus
unfolding get_status fireblocks_to_invoice_status
map_fireblocks_to_invoice_status s = get_status s fireblocks_to_invoice_status

-- ===== src/Webhook/Settled.antt =====
-- A notification's request commits at its end, or leaves the tables as they were.
use custody_service.Common.{
  ℕ, String, ◌≡◌, refl, inl, inr, is_filled, Bool-cases, Option, none, some, List, Bool, true,
  false, ◌&&◌, ◌||◌, not, ap, if◌then◌else◌, arith,
}
use custody_service.Models.{Db, Wallet}
use custody_service.Outside.{Outside}
use custody_service.Session.{
  World, Result, Action, http, ok, err, pure, commit, then_run, handled, rollback, idle, respond,
  Event, ◌>>◌,
}
use custody_service.Session.Atomic.{IsUncommitted, uncommitted}
use custody_service.Webhook.Payload.{Details, Payload, WebhookResult}
use custody_service.Webhook.Wallets.{WalletInfo}
use custody_service.Webhook.Atomic.{
  parse_amount-IsUncommitted, parse_net_amount_decimal-IsUncommitted, identify_wallet-IsUncommitted,
  identify_source_wallet-IsUncommitted, process_outgoing_transfer-IsUncommitted,
}
use custody_service.Webhook.Process.{
  Assigned, flushed, lower_balance, lower_source_of, lower_source, received, received_by,
  process_internal_transfer, committed_after, process_webhook, Gate, WebhookAnswer, answered,
  failed, check_signature, answer_to, fireblocks_webhook,
}
use custody_service.Webhook.AtomicDeposits.{
  update_wallet_balance-IsUncommitted, queue-IsUncommitted, process_incoming_deposit-IsUncommitted,
}

lower_balance-IsUncommitted :
    (o : Outside) (d : Details) (w : Option Wallet) → IsUncommitted (lower_balance o d w)
lower_balance-IsUncommitted o d none = search uncommitted
lower_balance-IsUncommitted o d (some w) =
    search (uncommitted, parse_net_amount_decimal-IsUncommitted)

lower_source_of-IsUncommitted :
    (o : Outside) (d : Details) (i : Option ℕ) → IsUncommitted (lower_source_of o d i)
lower_source_of-IsUncommitted o d none = search uncommitted
lower_source_of-IsUncommitted o d (some i) = search (uncommitted, lower_balance-IsUncommitted)

lower_source-IsUncommitted :
    (o : Outside) (d : Details) (info : Option WalletInfo) → IsUncommitted (lower_source o d info)
lower_source-IsUncommitted o d none = search uncommitted
lower_source-IsUncommitted o d (some info) = lower_source_of-IsUncommitted o d info.wallet_id

flushed-IsUncommitted : (a : Assigned) → IsUncommitted (flushed a)
flushed-IsUncommitted none = search uncommitted
flushed-IsUncommitted (some a) = search uncommitted

received-IsUncommitted :
    (o : Outside) (d : Details) (info : WalletInfo) (i : Option ℕ)
    → IsUncommitted (received o d info i)
received-IsUncommitted o d info none = search uncommitted
received-IsUncommitted o d info (some i) =
    search
      (
        uncommitted, update_wallet_balance-IsUncommitted, identify_source_wallet-IsUncommitted,
        lower_source-IsUncommitted, queue-IsUncommitted, flushed-IsUncommitted,
        parse_amount-IsUncommitted,
      )
      depth 12

received_by-IsUncommitted :
    (o : Outside) (d : Details) (info : Option WalletInfo) → IsUncommitted (received_by o d info)
received_by-IsUncommitted o d none = search uncommitted
received_by-IsUncommitted o d (some info) = received-IsUncommitted o d info info.wallet_id

process_internal_transfer-IsUncommitted :
    (o : Outside) (d : Details) → IsUncommitted (process_internal_transfer o d)
unfolding process_internal_transfer
process_internal_transfer-IsUncommitted o d =
    search (uncommitted, identify_wallet-IsUncommitted, received_by-IsUncommitted)

-- An exception leaves the committed tables as they were.
abbrev pub Aborts : {A : Type 0} → Db → Result A × World → Type 0
Aborts db (ok a, w) = Unit
Aborts db (err e, w) = w.committed ≡ db

IsAborting : Action WebhookResult → Type 0
IsAborting m = (w : World) → Aborts w.committed (m w)

pure-IsAborting : (r : WebhookResult) → IsAborting (pure r)
unfolding IsAborting
pure-IsAborting r w = tt

then_commit :
    (r : Result WebhookResult) (v : World) (db : Db)
    → v.committed ≡ db
    → Aborts db (then_run r (λ x. do commit; pure x) v)
then_commit (ok a) v db e = tt
then_commit (err x) v db e = e

committed_after-IsAborting :
    (m : Action WebhookResult) → IsUncommitted m → IsAborting (committed_after m)
unfolding IsUncommitted IsAborting
committed_after-IsAborting m h w = then_commit (m w).0 (m w).1 w.committed (h w)

if-IsAborting :
    (b : Bool) (m n : Action WebhookResult)
    → IsAborting m
    → IsAborting n
    → IsAborting (if b then m else n)
if-IsAborting true m n h k = h
if-IsAborting false m n h k = k

process_webhook-IsAborting : (o : Outside) (p : Payload) → IsAborting (process_webhook o p)
unfolding process_webhook
process_webhook-IsAborting o p =
    search
      (
        pure-IsAborting, committed_after-IsAborting, if-IsAborting,
        process_incoming_deposit-IsUncommitted, process_outgoing_transfer-IsUncommitted,
        process_internal_transfer-IsUncommitted,
      )
      depth 8

-- The signature is refused: signatures are checked, and it is missing, empty or wrong.
abbrev pub is_refused : Gate → Option String → Bool
is_refused g signature =
    g.is_checked && (not (is_filled signature) || not (g.verify_signature signature))

-- The answer by what the processing of the notification came to.
abbrev pub Reports : Db → Result WebhookResult × World → Result WebhookAnswer × World → Type 0
Reports db (ok r, v) x = x ≡ (ok (answered r), idle v.committed v.sent)
Reports db (err e, v) x = x ≡ (ok failed, idle db v.sent)

-- What becomes of a notification whose signature is refused or not, and that validates or not.
abbrev pub Settles :
    Outside → Db → List Event → Bool → Option Payload → Result WebhookAnswer × World → Type 0
Settles o db es true payload x = x ≡ (err (http 401), idle db es)
Settles o db es false none x = x ≡ (err (http 400), idle db es)
Settles o db es false (some p) x = Reports db (process_webhook o p (idle db es)) x

recovered :
    (r : Result WebhookResult) (v : World) (db : Db)
    → Aborts db (r, v)
    → Reports db
        (r, v)
        (let (s, u) =
            handled
              (then_run r (λ x. pure (answered x)) v).0
              (λ e. do rollback; pure failed)
              (then_run r (λ x. pure (answered x)) v).1 in
          (s, record u { db = u.committed }))
recovered (ok a) v db h = refl
recovered (err e) v db h = ap (λ d. (ok failed, idle d v.sent)) h

answer_to-Settles :
    (o : Outside) (payload : Option Payload) (db : Db) (es : List Event)
    → Settles o db es false payload (respond (answer_to o payload) (idle db es))
unfolding answer_to IsAborting
answer_to-Settles o none db es = refl
answer_to-Settles o (some p) db es =
    let r = process_webhook o p (idle db es) in
    recovered r.0 r.1 db (process_webhook-IsAborting o p (idle db es))

-- The signature is let through or refused.
checked :
    (g : Gate) (signature : Option String) (w : World)
    → check_signature g signature w
      ≡ (if is_refused g signature then (err (http 401), w) else (ok tt, w))
checked g signature w = ground arith

-- A notification whose signature is missing, empty or wrong, where signatures are checked, is
-- answered with 401, and any other that does not validate with 400; in both cases nothing changes
-- and nothing is sent. One that passes both is answered: with the result of its processing, and
-- the tables that the processing committed; or, if that raises at any point, by `failed`, in a
-- response of status 200 too, and the tables are what they were before the request.
pub fireblocks_webhook-Settles :
    (o : Outside) (g : Gate) (signature : Option String) (payload : Option Payload) (db : Db)
    (es : List Event)
    → Settles o db es
        (is_refused g signature)
        payload
        (respond (fireblocks_webhook o g signature payload) (idle db es))
unfolding fireblocks_webhook
fireblocks_webhook-Settles o g signature payload db es =
    elim (Bool-cases (is_refused g signature)) [
      | inl e ↦ rw (checked g signature (idle db es), e) refl
      | inr e ↦ rw (checked g signature (idle db es), e) (answer_to-Settles o payload db es)
    ]

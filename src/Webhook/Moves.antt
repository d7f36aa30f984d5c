-- ===== src/Webhook/Moves.antt =====
-- What a withdrawal's notification does to its transfer and to the wallet.
use custody_service.Common.{
  ℕ, String, ◌≡◌, refl, Bool, true, false, arith, Option, none, some, List, [], ◌∷◌, ◌++◌, ℤ,
  select, text_eq, is_filled, append_text, ◌||◌, ap, if◌then◌else◌,
}
use custody_service.Models.{Transfer, TransferStatus, Wallet, known}
use custody_service.Ledger.{release_reserve, complete_transfer_balance}
use custody_service.Outside.{Outside}
use custody_service.Session.{World, Action, ok, Event, Done, payout_callback, PayoutStatus}
use custody_service.Transfers.{save}
use custody_service.Api.Completion.{saved}
use custody_service.Webhook.Payload.{
  Details, Payload, is_failure, is_transaction_event, WebhookResult, get_transaction_details,
  is_failed_or_rejected,
}
use custody_service.Webhook.Outgoing.{
  find_transfer, by_provider, move_transfer, process_outgoing_transfer, with_hash,
  handle_transfer_failed, handle_transfer_completed,
}

-- What the status of the notification asks for.
pub data Move : Type 0 where
  fail complete broadcast sign stay : Move

unfoldable pub move_of : String → Move
move_of s =
    if text_eq s "REJECTED"
      || (text_eq s "BLOCKED"
          || (text_eq s "FAILED" || (text_eq s "CANCELLED" || text_eq s "TIMEOUT")))
    then fail
    else if text_eq s "COMPLETED"
    then complete
    else if text_eq s "BROADCASTING"
    then broadcast
    else if text_eq s "PENDING_SIGNATURE"
        || (text_eq s "QUEUED" || text_eq s "PENDING_AUTHORIZATION")
    then sign
    else stay

-- The text of a failure: the status and, if there is one, the sub-status.
abbrev reason_of : Option String → String
reason_of none = "No details"
reason_of (some s) = if is_filled (some s) then s else "No details"

abbrev pub moved_row : ℕ → Move → Details → Transfer → Transfer
moved_row now fail d t = record t {
  status = known TransferStatus.failed;
  error_message = some (
      append_text "Transaction "
        (append_text d.status (append_text ": " (reason_of d.sub_status))));
  completed_at = some now;
}
moved_row now complete d t = record t {
  status = known TransferStatus.completed;
  tx_hash = d.tx_hash;
  completed_at = some now;
}
moved_row now broadcast d t = record t { status = known TransferStatus.broadcasting }
moved_row now sign d t = record t { status = known TransferStatus.signing }
moved_row now stay d t = t

abbrev pub moved_wallets : Move → Option ℕ → ℤ → List Wallet → List Wallet
moved_wallets fail (some i) a ws = (release_reserve i a ws).0
moved_wallets complete (some i) a ws = (complete_transfer_balance i a ws).0
moved_wallets _ i a ws = ws

abbrev pub moved_events : Move → Details → Transfer → List Event → List Event
moved_events fail d t es =
    if t.is_internal
    then es
    else es ++ payout_callback t.request_id PayoutStatus.failed d.tx_hash ∷ []
moved_events complete d t es =
    if t.is_internal
    then es
    else es ++ payout_callback t.request_id PayoutStatus.completed d.tx_hash ∷ []
moved_events _ d t es = es

-- The state after a move of the transfer, and after the one the notification asks for.
abbrev pub moved : ℕ → Details → Move → Transfer → World → World
moved now d m t w = record w {
  db =
      saved (moved_row now m d t)
        (record w.db { wallets = moved_wallets m t.wallet_id t.amount w.db.wallets });
  sent = moved_events m d t w.sent;
}

-- The hash that is kept: the one that is there, or else the notification's, if it has one.
abbrev pub kept_hash : Option String → Option String → Option String
kept_hash old new = if is_filled old then old else if is_filled new then new else old

abbrev pub after_move : ℕ → Details → Transfer → World → World
after_move now d t w =
    moved now d (move_of d.status) (record t { tx_hash = kept_hash t.tx_hash d.tx_hash }) w

fail_effect :
    (now : ℕ) (d : Details) (t : Transfer) (w : World)
    → handle_transfer_failed now d t w ≡ (
      ok tt,
      record w {
        db =
            saved
              (moved_row now fail d t)
              (record w.db { wallets = moved_wallets fail t.wallet_id t.amount w.db.wallets });
        sent = moved_events fail d t w.sent;
      },
    )
unfolding handle_transfer_failed
fail_effect now d t w = ground arith

complete_effect :
    (now : ℕ) (d : Details) (t : Transfer) (w : World)
    → handle_transfer_completed now d t w ≡ (
      ok tt,
      record w {
        db =
            saved
              (moved_row now complete d t)
              (record w.db { wallets = moved_wallets complete t.wallet_id t.amount w.db.wallets });
        sent = moved_events complete d t w.sent;
      },
    )
unfolding handle_transfer_completed
complete_effect now d t w = ground arith

failing_as_status :
    (p : Payload)
    → is_transaction_event p ≡ true
    → is_failed_or_rejected p ≡ is_failure p.details.status
unfolding is_failed_or_rejected get_transaction_details
failing_as_status p event = ground (arith, event)

abbrev carry_out : ℕ → Details → Move → Transfer → Action Done
carry_out now d fail t = handle_transfer_failed now d t
carry_out now d complete t = handle_transfer_completed now d t
carry_out now d broadcast t = save (record t { status = known TransferStatus.broadcasting })
carry_out now d sign t = save (record t { status = known TransferStatus.signing })
carry_out now d stay t = save t

carry_out-moved :
    (now : ℕ) (d : Details) (m : Move) (t : Transfer) (w : World)
    → carry_out now d m t w ≡ (ok tt, moved now d m t w)
carry_out-moved now d fail t w = fail_effect now d t w
carry_out-moved now d complete t w = complete_effect now d t w
carry_out-moved now d broadcast t w = refl
carry_out-moved now d sign t w = refl
carry_out-moved now d stay t w = refl

branches :
    (failed is_complete is_broadcast signs : Bool) (now : ℕ) (d : Details) (t : Transfer)
    (w : World)
    → (if failed
          then handle_transfer_failed now d t
          else if is_complete
          then handle_transfer_completed now d t
          else if is_broadcast
          then save (record t { status = known TransferStatus.broadcasting })
          else if signs
          then save (record t { status = known TransferStatus.signing })
          else save t)
        w
      ≡ carry_out now d
          (if failed
            then fail
            else if is_complete
            then complete
            else if is_broadcast
            then broadcast
            else if signs
            then sign
            else stay)
          t
          w
branches true c b s now d t w = refl
branches false true b s now d t w = refl
branches false false true s now d t w = refl
branches false false false true now d t w = refl
branches false false false false now d t w = refl

move_transfer-after_move :
    (now : ℕ) (p : Payload) (t : Transfer) (w : World)
    → is_transaction_event p ≡ true
    → move_transfer now p p.details t w
      ≡ (ok tt, moved now p.details (move_of p.details.status) t w)
unfolding move_transfer move_of is_failure
move_transfer-after_move now p t w event =
    rw (failing_as_status p event, branches _ _ _ _ now p.details t w)
      (carry_out-moved now p.details (move_of p.details.status) t w)

-- The result that names the transfer.
abbrev pub named : Details → Transfer → WebhookResult
named d t = record {
  status = "processed";
  transaction_id = some t.id;
  provider_tx_id = some d.id;
  amount = some t.amount;
  vault_id = t.vault_id;
  wallet_id = t.wallet_id;
  asset_id = t.asset_id;
}

with_hash-kept_hash :
    (h : Option String) (t : Transfer)
    → with_hash h t ≡ record t { tx_hash = kept_hash t.tx_hash h }
with_hash-kept_hash h t = ground arith

-- For a `transaction.` event whose transaction id just one transfer holds as `provider_tx_id`, in
-- whatever status that transfer is: the result names the transfer. A failure status runs
-- `release_reserve` for the amount on its wallet and makes it `failed`; COMPLETED runs
-- `complete_transfer_balance` instead and makes it `completed`, whatever that returns; both call
-- back for an external transfer, and touch no wallet if it has none. BROADCASTING makes it
-- `broadcasting`, the three statuses of signing make it `signing`, any other status leaves it. A
-- hash is kept once it is set, except that completion takes the notification's.
pub process_outgoing_transfer-after_move :
    (o : Outside) (p : Payload) (t : Transfer) (w : World)
    → is_transaction_event p ≡ true
    → select (by_provider p.details.id) w.db.transfers ≡ t ∷ []
    → process_outgoing_transfer o p p.details w
      ≡ (ok (named p.details t), after_move o.now p.details t w)
unfolding process_outgoing_transfer find_transfer
process_outgoing_transfer-after_move o p t w event found =
    rw (found, move_transfer-after_move o.now p (with_hash p.details.tx_hash t) w event)
      (ap (λ u. (ok (named p.details t), moved o.now p.details (move_of p.details.status) u w))
        (with_hash-kept_hash p.details.tx_hash t))

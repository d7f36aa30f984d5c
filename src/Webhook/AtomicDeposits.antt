-- ===== src/Webhook/AtomicDeposits.antt =====
-- The handlers of notifications commit nothing themselves: the retries of waiting transfers, and
-- deposits.
use custody_service.Common.{
  ℕ, String, ◌≡◌, refl, Option, none, some, List, [], ◌∷◌, Bool, true, false, ℤ,
}
use custody_service.Models.{Asset, Wallet, Transfer, Transaction}
use custody_service.Outside.{Outside}
use custody_service.Session.{World, Action, pure, Done, Error, shortage}
use custody_service.Session.Atomic.{IsUncommitted, uncommitted}
use custody_service.Transfers.{
  process_pending_balance_transfer, process_flushing, waiting, settled, reserve_hot_wallet,
  update_transfer_with_wallet,
}
use custody_service.Ledger.HotWallet.{Selection, selected, short}
use custody_service.Api.QueueRun.{announce, announce_if, queue_round}
use custody_service.Webhook.Payload.{AmountInfo, Details}
use custody_service.Webhook.Wallets.{WalletInfo}
use custody_service.Webhook.Atomic.{
  number-IsUncommitted, parse_amount-IsUncommitted, parse_amount_usd-IsUncommitted,
  parse_net_amount_decimal-IsUncommitted, identify_wallet-IsUncommitted,
}
use custody_service.Webhook.Waiting.{
  flushing_round, retry_flushing, flushing_for, flushing_for_id, retry_each, retry_for,
  retry_for_id, process_pending_balance_queue, process_pending_balance_queue_for_asset,
}
use custody_service.Webhook.Deposits.{
  wallet_in, wallet_found, set_balance, update_wallet_balance, tell, notify_backend_about_deposit,
  after_creation, create_transaction, info_number, after_update, update_transaction, deposit_of,
  process_incoming_deposit,
}

settled-committed : (s : Selection) (w : World) → (settled s w).1.committed ≡ w.committed
settled-committed (selected r ws) w = refl
settled-committed (short s) w = refl

reserve-IsUncommitted :
    (c : Option String) (b : String) (n : ℤ) → IsUncommitted (reserve_hot_wallet c b n)
unfolding IsUncommitted reserve_hot_wallet
reserve-IsUncommitted c b n w = settled-committed _ w

waiting-IsUncommitted :
    (flush : Action Done)
    → IsUncommitted flush
    → (t : Transfer) (e : Error) → IsUncommitted (waiting flush t e)
waiting-IsUncommitted flush k t (shortage s) = search (uncommitted, k)
waiting-IsUncommitted flush k t e = search uncommitted

process_flushing-IsUncommitted :
    (flush : Action Done)
    → IsUncommitted flush
    → (now : ℕ) (t : Transfer) → IsUncommitted (process_flushing flush now t)
unfolding update_transfer_with_wallet
process_flushing-IsUncommitted flush k now t =
    search (uncommitted, k, reserve-IsUncommitted, waiting-IsUncommitted) depth 16

retry-IsUncommitted :
    (now : ℕ) (t : Transfer) → IsUncommitted (process_pending_balance_transfer now t)
unfolding process_pending_balance_transfer
retry-IsUncommitted now t = process_flushing-IsUncommitted (pure tt) (search uncommitted) now t

announce-IsUncommitted : (t : Option Transfer) → IsUncommitted (announce t)
announce-IsUncommitted none = search uncommitted
announce-IsUncommitted (some t) = search uncommitted

announce_if-IsUncommitted : (b : Bool) (i : ℕ) → IsUncommitted (announce_if b i)
announce_if-IsUncommitted true i = search (uncommitted, announce-IsUncommitted)
announce_if-IsUncommitted false i = search uncommitted

queue_round-IsUncommitted : (now : ℕ) (t : Transfer) → IsUncommitted (queue_round now t)
unfolding queue_round
queue_round-IsUncommitted now t =
    search (uncommitted, retry-IsUncommitted, announce_if-IsUncommitted)

retry_each-IsUncommitted : (now : ℕ) (ts : List Transfer) → IsUncommitted (retry_each now ts)
unfolding retry_each
retry_each-IsUncommitted now [] = search uncommitted
retry_each-IsUncommitted now (t ∷ ts) =
    search (uncommitted, queue_round-IsUncommitted, retry_each-IsUncommitted now ts)

flushing_round-IsUncommitted :
    (flush : Action Done)
    → IsUncommitted flush
    → (now : ℕ) (t : Transfer) → IsUncommitted (flushing_round flush now t)
unfolding flushing_round
flushing_round-IsUncommitted flush k now t =
    search (uncommitted, k, process_flushing-IsUncommitted, announce_if-IsUncommitted) depth 10

retry_flushing-IsUncommitted :
    (flush : Action Done)
    → IsUncommitted flush
    → (now : ℕ) (ts : List Transfer) → IsUncommitted (retry_flushing flush now ts)
retry_flushing-IsUncommitted flush k now [] = k
retry_flushing-IsUncommitted flush k now (t ∷ ts) =
    search (uncommitted, k, flushing_round-IsUncommitted, retry_each-IsUncommitted)

flushing_for-IsUncommitted :
    (flush : Action Done)
    → IsUncommitted flush
    → (now : ℕ) (a : Option Asset) → IsUncommitted (flushing_for flush now a)
flushing_for-IsUncommitted flush k now none = k
flushing_for-IsUncommitted flush k now (some a) =
    search (uncommitted, k, retry_flushing-IsUncommitted)

flushing_for_id-IsUncommitted :
    (flush : Action Done)
    → IsUncommitted flush
    → (now : ℕ) (i : Option ℕ) → IsUncommitted (flushing_for_id flush now i)
flushing_for_id-IsUncommitted flush k now none = k
flushing_for_id-IsUncommitted flush k now (some i) =
    search (uncommitted, k, flushing_for-IsUncommitted)

retry_for-IsUncommitted : (now : ℕ) (a : Option Asset) → IsUncommitted (retry_for now a)
retry_for-IsUncommitted now none = search uncommitted
retry_for-IsUncommitted now (some a) = search (uncommitted, retry_each-IsUncommitted)

retry_for_id-IsUncommitted : (now : ℕ) (i : Option ℕ) → IsUncommitted (retry_for_id now i)
retry_for_id-IsUncommitted now none = search uncommitted
retry_for_id-IsUncommitted now (some i) = search (uncommitted, retry_for-IsUncommitted)

pub queue-IsUncommitted :
    (flush : Action Done)
    → IsUncommitted flush
    → (now : ℕ) (info : WalletInfo) → IsUncommitted (process_pending_balance_queue flush now info)
unfolding process_pending_balance_queue
queue-IsUncommitted flush k now info = flushing_for_id-IsUncommitted flush k now info.asset_id

queue_for_asset-IsUncommitted :
    (now : ℕ) (info : WalletInfo) → IsUncommitted (process_pending_balance_queue_for_asset now info)
unfolding process_pending_balance_queue_for_asset
queue_for_asset-IsUncommitted now info = search (uncommitted, retry_for_id-IsUncommitted)

wallet_in-IsUncommitted : (v : ℕ) (a : Option ℕ) → IsUncommitted (wallet_in v a)
wallet_in-IsUncommitted v none = search uncommitted
wallet_in-IsUncommitted v (some a) = search uncommitted

wallet_found-IsUncommitted :
    (info : WalletInfo) (i : Option ℕ) → IsUncommitted (wallet_found info i)
wallet_found-IsUncommitted info none = search wallet_in-IsUncommitted
wallet_found-IsUncommitted info (some i) = search uncommitted

set_balance-IsUncommitted :
    (o : Outside) (d : Details) (w : Option Wallet) → IsUncommitted (set_balance o d w)
set_balance-IsUncommitted o d none = search uncommitted
set_balance-IsUncommitted o d (some w) =
    search (uncommitted, parse_net_amount_decimal-IsUncommitted)

pub update_wallet_balance-IsUncommitted :
    (o : Outside) (info : WalletInfo) (d : Details) → IsUncommitted (update_wallet_balance o info d)
unfolding update_wallet_balance
update_wallet_balance-IsUncommitted o info d =
    search (uncommitted, wallet_found-IsUncommitted, set_balance-IsUncommitted)

tell-IsUncommitted :
    (o : Outside) (info : WalletInfo) (d : Details) (b c : Option String)
    → IsUncommitted (tell o info d b c)
tell-IsUncommitted o info d none c = search uncommitted
tell-IsUncommitted o info d (some b) none = search uncommitted
tell-IsUncommitted o info d (some b) (some c) =
    search (uncommitted, parse_net_amount_decimal-IsUncommitted)

notify-IsUncommitted :
    (o : Outside) (info : WalletInfo) (d : Details)
    → IsUncommitted (notify_backend_about_deposit o info d)
unfolding notify_backend_about_deposit
notify-IsUncommitted o info d = search tell-IsUncommitted

after_creation-IsUncommitted :
    (o : Outside) (d : Details) (info : Option WalletInfo) → IsUncommitted (after_creation o d info)
after_creation-IsUncommitted o d none = search uncommitted
after_creation-IsUncommitted o d (some info) =
    search (uncommitted, update_wallet_balance-IsUncommitted, notify-IsUncommitted)

create_transaction-IsUncommitted :
    (o : Outside) (raw : String) (d : Details) → IsUncommitted (create_transaction o raw d)
unfolding create_transaction
create_transaction-IsUncommitted o raw d =
    search
      (
        uncommitted, identify_wallet-IsUncommitted, parse_amount-IsUncommitted,
        parse_amount_usd-IsUncommitted, after_creation-IsUncommitted,
      )
      depth 10

info_number-IsUncommitted :
    (o : Outside) (f : AmountInfo → Option String) (i : Option AmountInfo)
    → IsUncommitted (info_number o f i)
info_number-IsUncommitted o f none = search uncommitted
info_number-IsUncommitted o f (some i) = search (uncommitted, number-IsUncommitted)

after_update-IsUncommitted :
    (o : Outside) (d : Details) (info : Option WalletInfo) → IsUncommitted (after_update o d info)
after_update-IsUncommitted o d none = search uncommitted
after_update-IsUncommitted o d (some info) = search (
  uncommitted, update_wallet_balance-IsUncommitted, notify-IsUncommitted,
  queue_for_asset-IsUncommitted,
)

update_transaction-IsUncommitted :
    (o : Outside) (raw : String) (d : Details) (x : Transaction)
    → IsUncommitted (update_transaction o raw d x)
unfolding update_transaction
update_transaction-IsUncommitted o raw d x =
    search
      (
        uncommitted, info_number-IsUncommitted, identify_wallet-IsUncommitted,
        after_update-IsUncommitted,
      )
      depth 10

deposit_of-IsUncommitted :
    (o : Outside) (raw : String) (d : Details) (x : Option Transaction)
    → IsUncommitted (deposit_of o raw d x)
deposit_of-IsUncommitted o raw d none = create_transaction-IsUncommitted o raw d
deposit_of-IsUncommitted o raw d (some x) = update_transaction-IsUncommitted o raw d x

pub process_incoming_deposit-IsUncommitted :
    (o : Outside) (raw : String) (d : Details) → IsUncommitted (process_incoming_deposit o raw d)
unfolding process_incoming_deposit
process_incoming_deposit-IsUncommitted o raw d = search (uncommitted, deposit_of-IsUncommitted)

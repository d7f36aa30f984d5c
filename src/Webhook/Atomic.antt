-- ===== src/Webhook/Atomic.antt =====
-- The handlers of notifications commit nothing themselves: amounts, identification, withdrawals.
use custody_service.Common.{ℕ, String, Option, none, some, ℤ, refl, Bool, true, false}
use custody_service.Models.{Vault, Asset, Transfer, Transaction}
use custody_service.Fireblocks.Assets.{FbAsset, Metadata, parse_fireblocks_asset}
use custody_service.Outside.{Outside}
use custody_service.Session.{PayoutStatus}
use custody_service.Session.Atomic.{IsUncommitted, uncommitted}
use custody_service.Transfers.{notify_unless_internal, release_if}
use custody_service.Webhook.Payload.{Details, Payload}
use custody_service.Webhook.Amounts.{
  number, parse_amount, parse_amount_usd, parse_net_amount_decimal, or_amount,
}
use custody_service.Webhook.Wallets.{
  canonical, listed, find_asset_by_fireblocks_id, with_asset, asset_named, identify_in, identify,
  identify_wallet, identify_source_wallet,
}
use custody_service.Webhook.Outgoing.{
  adopt, by_request, or_by_request, find_transfer, handle_transfer_failed, complete_if,
  handle_transfer_completed, move_transfer, store, create_legacy_transaction, outgoing_of,
  process_outgoing_transfer,
}

pub number-IsUncommitted : (o : Outside) (s : Option String) → IsUncommitted (number o s)
number-IsUncommitted o none = search uncommitted
number-IsUncommitted o (some s) = search uncommitted

pub parse_amount-IsUncommitted : (o : Outside) (d : Details) → IsUncommitted (parse_amount o d)
unfolding parse_amount
parse_amount-IsUncommitted o d = search (uncommitted, number-IsUncommitted)

or_amount-IsUncommitted :
    (o : Outside) (d : Details) (n : Option ℤ) → IsUncommitted (or_amount o d n)
or_amount-IsUncommitted o d none = parse_amount-IsUncommitted o d
or_amount-IsUncommitted o d (some n) = search uncommitted

pub parse_amount_usd-IsUncommitted :
    (o : Outside) (d : Details) → IsUncommitted (parse_amount_usd o d)
unfolding parse_amount_usd
parse_amount_usd-IsUncommitted o d = number-IsUncommitted o _

pub parse_net_amount_decimal-IsUncommitted :
    (o : Outside) (d : Details) → IsUncommitted (parse_net_amount_decimal o d)
unfolding parse_net_amount_decimal
parse_net_amount_decimal-IsUncommitted o d =
    search (uncommitted, number-IsUncommitted, or_amount-IsUncommitted)

canonical-IsUncommitted : (fb : FbAsset) (m : Option Metadata) → IsUncommitted (canonical fb m)
canonical-IsUncommitted fb none = search uncommitted
canonical-IsUncommitted fb (some m) = search uncommitted

listed-IsUncommitted : (i : String) (fb : Option FbAsset) → IsUncommitted (listed i fb)
listed-IsUncommitted i none = search uncommitted
listed-IsUncommitted i (some fb) = canonical-IsUncommitted fb (parse_fireblocks_asset i fb)

find_asset-IsUncommitted :
    (o : Outside) (i : String) → IsUncommitted (find_asset_by_fireblocks_id o i)
unfolding find_asset_by_fireblocks_id
find_asset-IsUncommitted o i = search (uncommitted, listed-IsUncommitted)

asset_named-IsUncommitted : (o : Outside) (i : Option String) → IsUncommitted (asset_named o i)
unfolding asset_named
asset_named-IsUncommitted o none = search uncommitted
asset_named-IsUncommitted o (some i) = search (uncommitted, find_asset-IsUncommitted)

with_asset-IsUncommitted : (v : Vault) (a : Option Asset) → IsUncommitted (with_asset v a)
with_asset-IsUncommitted v none = search uncommitted
with_asset-IsUncommitted v (some a) = search uncommitted

identify_in-IsUncommitted :
    (o : Outside) (d : Details) (v : Option Vault) → IsUncommitted (identify_in o d v)
unfolding identify_in
identify_in-IsUncommitted o d none = search uncommitted
identify_in-IsUncommitted o d (some v) =
    search (uncommitted, asset_named-IsUncommitted, with_asset-IsUncommitted)

identify-IsUncommitted :
    (o : Outside) (d : Details) (i : Option String) → IsUncommitted (identify o d i)
identify-IsUncommitted o d none = search uncommitted
identify-IsUncommitted o d (some i) = search (uncommitted, identify_in-IsUncommitted)

pub identify_wallet-IsUncommitted :
    (o : Outside) (d : Details) → IsUncommitted (identify_wallet o d)
unfolding identify_wallet
identify_wallet-IsUncommitted o d = search identify-IsUncommitted

pub identify_source_wallet-IsUncommitted :
    (o : Outside) (d : Details) → IsUncommitted (identify_source_wallet o d)
unfolding identify_source_wallet
identify_source_wallet-IsUncommitted o d = search identify-IsUncommitted

adopt-IsUncommitted : (i : String) (t : Option Transfer) → IsUncommitted (adopt i t)
adopt-IsUncommitted i none = search uncommitted
adopt-IsUncommitted i (some t) = search uncommitted

by_request-IsUncommitted : (i : String) (r : Option String) → IsUncommitted (by_request i r)
by_request-IsUncommitted i none = search uncommitted
by_request-IsUncommitted i (some r) = search (uncommitted, adopt-IsUncommitted)

or_by_request-IsUncommitted :
    (i : String) (r : Option String) (t : Option Transfer) → IsUncommitted (or_by_request i r t)
or_by_request-IsUncommitted i r none = by_request-IsUncommitted i r
or_by_request-IsUncommitted i r (some t) = search uncommitted

find_transfer-IsUncommitted : (i : String) (r : Option String) → IsUncommitted (find_transfer i r)
unfolding find_transfer
find_transfer-IsUncommitted i r = search (uncommitted, or_by_request-IsUncommitted)

release_if-IsUncommitted : (b : Bool) (i : Option ℕ) (a : ℤ) → IsUncommitted (release_if b i a)
unfolding IsUncommitted
release_if-IsUncommitted true none a w = refl
release_if-IsUncommitted true (some i) a w = refl
release_if-IsUncommitted false i a w = refl

complete_if-IsUncommitted : (i : Option ℕ) (a : ℤ) → IsUncommitted (complete_if i a)
unfolding IsUncommitted
complete_if-IsUncommitted none a w = refl
complete_if-IsUncommitted (some i) a w = refl

notify-IsUncommitted :
    (t : Transfer) (s : PayoutStatus) (h : Option String)
    → IsUncommitted (notify_unless_internal t s h)
notify-IsUncommitted t s h = search uncommitted

failed-IsUncommitted :
    (now : ℕ) (d : Details) (t : Transfer) → IsUncommitted (handle_transfer_failed now d t)
unfolding handle_transfer_failed
failed-IsUncommitted now d t = search (uncommitted, release_if-IsUncommitted, notify-IsUncommitted)

completed-IsUncommitted :
    (now : ℕ) (d : Details) (t : Transfer) → IsUncommitted (handle_transfer_completed now d t)
unfolding handle_transfer_completed
completed-IsUncommitted now d t =
    search (uncommitted, complete_if-IsUncommitted, notify-IsUncommitted)

move_transfer-IsUncommitted :
    (now : ℕ) (p : Payload) (d : Details) (t : Transfer) → IsUncommitted (move_transfer now p d t)
unfolding move_transfer
move_transfer-IsUncommitted now p d t =
    search (uncommitted, failed-IsUncommitted, completed-IsUncommitted)

store-IsUncommitted :
    (x : Transaction) (y : Option Transaction) (d : Details) (raw : String)
    → IsUncommitted (store x y d raw)
store-IsUncommitted x none d raw = search uncommitted
store-IsUncommitted x (some y) d raw = search uncommitted

create_legacy-IsUncommitted :
    (o : Outside) (p : Payload) (d : Details) → IsUncommitted (create_legacy_transaction o p d)
unfolding create_legacy_transaction
create_legacy-IsUncommitted o p d =
    search
      (
        uncommitted, identify_source_wallet-IsUncommitted, parse_amount-IsUncommitted,
        parse_amount_usd-IsUncommitted, store-IsUncommitted,
      )
      depth 10

outgoing_of-IsUncommitted :
    (o : Outside) (p : Payload) (d : Details) (t : Option Transfer)
    → IsUncommitted (outgoing_of o p d t)
outgoing_of-IsUncommitted o p d none = create_legacy-IsUncommitted o p d
outgoing_of-IsUncommitted o p d (some t) = search (uncommitted, move_transfer-IsUncommitted)

pub process_outgoing_transfer-IsUncommitted :
    (o : Outside) (p : Payload) (d : Details) → IsUncommitted (process_outgoing_transfer o p d)
unfolding process_outgoing_transfer
process_outgoing_transfer-IsUncommitted o p d =
    search (uncommitted, find_transfer-IsUncommitted, outgoing_of-IsUncommitted)

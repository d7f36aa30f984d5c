-- ===== src/Transfers/Queue.antt =====
-- app/dao/transfer.py, the queries over the transfers that wait for a balance.
pub mod Order
pub mod Groups
use custody_service.Common.{
  ℕ, zero, suc, String, Bool, true, false, ◌&&◌, Option, none, some, List, [], ◌∷◌, ◌++◌, leb, ltb,
  length, take, select, same_text?, text_eq, if◌then◌else◌, ℤ, pos, ◌+ℤ◌,
}
use custody_service.Models.{Transfer, TransferStatus, is_status, Db}

abbrev pub waits : Transfer → Bool
waits t = is_status TransferStatus.pending_balance t.status

-- `ORDER BY created_at ASC`; rows of one time stay in the table's order.
unfoldable pub insert_by_time : Transfer → List Transfer → List Transfer
insert_by_time t [] = t ∷ []
insert_by_time t (u ∷ us) =
    let rest = insert_by_time t us in if leb t.created_at u.created_at then t ∷ u ∷ us else u ∷ rest

unfoldable pub by_time : List Transfer → List Transfer
unfolding insert_by_time
by_time [] = []
by_time (t ∷ ts) = insert_by_time t (by_time ts)

-- `select(TransferModel).where(status == PENDING_BALANCE).order_by(created_at.asc())`
unfoldable pub waiting_by_time : Db → List Transfer
unfolding by_time is_status
waiting_by_time db = by_time (select waits db.transfers)

unfoldable pub get_pending_balance_transfers : ℕ → Db → List Transfer
unfolding waiting_by_time
get_pending_balance_transfers limit db = take limit (waiting_by_time db)

-- The key of a group: the contract, `None` for the native coin, and the blockchain.
pub record Key : Type 0 where
  pub contract_address : Option String
  pub blockchain : String

abbrev pub key_of : Transfer → Key
key_of t = record { contract_address = t.contract_address; blockchain = t.blockchain }

unfoldable pub same_key : Key → Key → Bool
same_key a b = same_text? a.contract_address b.contract_address && text_eq a.blockchain b.blockchain

-- A dict from keys to lists of transfers, in the order in which the keys came.
abbrev pub Groups : Type 0
Groups = List (Key × List Transfer)

-- `if len(group) < limit: group.append(transfer)`
abbrev pub push : ℕ → Transfer → List Transfer → List Transfer
push limit t ts = if ltb (length ts) limit then ts ++ t ∷ [] else ts

-- One round of the loop; a key that is not there starts with an empty group.
unfoldable pub add_to_group : ℕ → Transfer → Groups → Groups
add_to_group limit t [] = (key_of t, push limit t []) ∷ []
add_to_group limit t ((k, ts) ∷ gs) =
    let rest = add_to_group limit t gs in
    if same_key k (key_of t) then (k, push limit t ts) ∷ gs else (k, ts) ∷ rest

unfoldable pub group_from : ℕ → List Transfer → Groups → Groups
unfolding add_to_group
group_from limit [] gs = gs
group_from limit (t ∷ ts) gs = group_from limit ts (add_to_group limit t gs)

unfoldable pub get_pending_balance_transfers_grouped : ℕ → Db → Groups
unfolding group_from waiting_by_time
get_pending_balance_transfers_grouped limit_per_group db =
    group_from limit_per_group (waiting_by_time db) []

-- ===== src/Tests/Transfers.antt =====
-- The queue of the transfers that wait for a balance.
use custody_service.Common.{◌≡◌, refl, take, select, [], ◌∷◌}
use mathlib.Core.List.{Perm}
use custody_service.Models.{Db, TransferStatus, known}
use custody_service.Transfers.Queue.{
  Key, key_of, same_key, waits, waiting_by_time, get_pending_balance_transfers,
  get_pending_balance_transfers_grouped,
}
use custody_service.Transfers.Queue.Groups.{
  group_of, group_of-get_pending_balance_transfers_grouped,
}
use custody_service.Transfers.Queue.Order.{IsSorted, waiting_by_time-Perm}
use custody_service.Tests.Data.{db, waiting, fresh}

-- The newer of the two waiting transfers stands first in the table.
abbrev two_wait : Db
two_wait = record db {
  transfers = waiting ∷ record fresh { status = known TransferStatus.pending_balance } ∷ [];
}

abbrev ether_key : Key
ether_key = key_of waiting

run_queue :
    get_pending_balance_transfers 1 two_wait
    ≡ record fresh { status = known TransferStatus.pending_balance } ∷ []
unfolding get_pending_balance_transfers waiting_by_time
run_queue = refl

group_of-grouped_example :
    group_of ether_key (get_pending_balance_transfers_grouped 1 two_wait)
    ≡ take 1 (select (λ t. same_key ether_key (key_of t)) (waiting_by_time two_wait))
group_of-grouped_example = group_of-get_pending_balance_transfers_grouped 1 ether_key two_wait

waiting_by_time-Perm_example :
    Perm (waiting_by_time two_wait) (select waits two_wait.transfers)
    × IsSorted (waiting_by_time two_wait)
waiting_by_time-Perm_example = waiting_by_time-Perm two_wait

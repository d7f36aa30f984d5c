-- ===== src/Models/Status.antt =====
-- The enums of app/enums/status.py, app/enums/types.py and app/enums/fireblocks.py, and the texts
-- that the `status` column of a transfer holds.
use custody_service.Common.{String, Bool, true, false, text_eq, if◌then◌else◌}

pub data VaultStatus : Type 0 where
  creating available error maintenance : VaultStatus

pub data TransferStatus : Type 0 where
  pending_approval pending_balance pending signing broadcasting : TransferStatus
  completed rejected failed cancelled : TransferStatus

pub data InvoiceStatus : Type 0 where
  pending paid confirming detected canceled failed timeout reorg : InvoiceStatus

pub data VaultType : Type 0 where
  hot warm cold regular operational : VaultType

-- `TransferStatus.….value`
unfoldable pub value : TransferStatus → String
value TransferStatus.pending_approval = "pending_approval"
value TransferStatus.pending_balance = "pending_balance"
value TransferStatus.pending = "pending"
value TransferStatus.signing = "signing"
value TransferStatus.broadcasting = "broadcasting"
value TransferStatus.completed = "completed"
value TransferStatus.rejected = "rejected"
value TransferStatus.failed = "failed"
value TransferStatus.cancelled = "cancelled"

-- The column `status` is a text. It holds the value of a `TransferStatus`, or any other text,
-- such as a status of Fireblocks that was copied there. `column s` is the column that holds `s`.
pub data Column : Type 0 where
  known : TransferStatus → Column
  other : String → Column

unfoldable pub column : String → Column
column s =
    if text_eq s "pending_approval"
    then known TransferStatus.pending_approval
    else if text_eq s "pending_balance"
    then known TransferStatus.pending_balance
    else if text_eq s "pending"
    then known TransferStatus.pending
    else if text_eq s "signing"
    then known TransferStatus.signing
    else if text_eq s "broadcasting"
    then known TransferStatus.broadcasting
    else if text_eq s "completed"
    then known TransferStatus.completed
    else if text_eq s "rejected"
    then known TransferStatus.rejected
    else if text_eq s "failed"
    then known TransferStatus.failed
    else if text_eq s "cancelled"
    then known TransferStatus.cancelled
    else other s

unfoldable pub is_status : TransferStatus → Column → Bool
is_status TransferStatus.pending_approval (known TransferStatus.pending_approval) = true
is_status TransferStatus.pending_balance (known TransferStatus.pending_balance) = true
is_status TransferStatus.pending (known TransferStatus.pending) = true
is_status TransferStatus.signing (known TransferStatus.signing) = true
is_status TransferStatus.broadcasting (known TransferStatus.broadcasting) = true
is_status TransferStatus.completed (known TransferStatus.completed) = true
is_status TransferStatus.rejected (known TransferStatus.rejected) = true
is_status TransferStatus.failed (known TransferStatus.failed) = true
is_status TransferStatus.cancelled (known TransferStatus.cancelled) = true
is_status _ _ = false

-- `TransferModel.is_pending`
unfoldable pub is_pending : Column → Bool
is_pending (known TransferStatus.pending_approval) = true
is_pending (known TransferStatus.pending_balance) = true
is_pending (known TransferStatus.pending) = true
is_pending (known TransferStatus.signing) = true
is_pending (known TransferStatus.broadcasting) = true
is_pending _ = false

-- `TransferModel.is_final`
unfoldable pub is_final : Column → Bool
is_final (known TransferStatus.completed) = true
is_final (known TransferStatus.rejected) = true
is_final (known TransferStatus.failed) = true
is_final (known TransferStatus.cancelled) = true
is_final _ = false

-- `TransferModel.is_cancellable`
unfoldable pub is_cancellable : Column → Bool
is_cancellable (known TransferStatus.pending_approval) = true
is_cancellable (known TransferStatus.pending_balance) = true
is_cancellable (known TransferStatus.pending) = true
is_cancellable _ = false

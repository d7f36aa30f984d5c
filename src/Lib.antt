-- ===== src/Lib.antt =====
-- Verification of the custody service: transfers out of HOT wallets, the reserves that back them,
-- and the notifications of the custody provider that move them on.
--
-- The parts of the program and the files that model them:
--
-- - Models: the tables (app/models/*.py), one record for each, with the columns that the modelled
--   code reads or writes, and the enums and status predicates (app/enums/*.py and
--   `TransferModel.is_pending`, `is_final`, `is_cancellable`).
-- - Ledger: the statements on the wallets of app/dao/transfer.py, `reserve_balance`,
--   `release_reserve`, `complete_transfer_balance`; Ledger/HotWallet is the statement that chooses
--   a HOT wallet and reserves on it, `select_and_reserve_hot_wallet`.
-- - Session: what a request handler does to the database session of app/storage/database.py. An
--   `Action` passes on a `World`: the tables as the session sees them, the tables as committed, and
--   the messages and callbacks sent; it ends in a value or an exception. `respond` is a whole
--   request: what is not committed at its end is lost.
-- - Transfers: the operations of app/dao/transfer.py on transfers; Transfers/Queue is the queue of
--   those that wait for a balance.
-- - Storage: the attempts of `get_db` and `get_db_local` of app/storage/database.py to get a session.
-- - Custody: the interface of the custody provider, app/services/custody/providers/base.py.
-- - Activation: app/dao/asset.py, the wallet of a vault for an asset. Bootstrap:
--   app/services/treasury_bootstrap.py, the default HOT vault and the auto-activation in it.
-- - Api: the endpoints of app/api/transfer.py; Lifecycle has those on existing transfers,
--   Api/QueueRun `process_queue`, the pass over the queue; Api/Creation is
--   `create_external_transfer`, the payout from a HOT wallet that is selected, Api/Direct
--   `_create_external_transfer_direct`, from a vault that the request names, and Api/Internal
--   `create_internal_transfer`.
-- - Treasury: app/api/treasury.py, the service's own vaults; Treasury/Sync is the import of the
--   provider's vaults, Treasury/Balances the reports, Treasury/Primary what is kept of the primary
--   vaults, and Treasury/Sequences runs the requests that change the treasury.
-- - Webhook: app/schemas/webhooks.py and app/dao/webhook/*.py, the notifications of Fireblocks;
--   Outgoing is the path of a withdrawal, `_process_outgoing_transfer` and what it calls, Deposits
--   that of a deposit, Waiting the retries of waiting transfers, and Process has internal
--   transfers, `process_webhook` and the endpoint of app/api/webhook.py. A payload is one whose
--   `data` validates as transaction details; `ilike` is equality but for the case, since the names
--   of blockchains hold no wildcards; the check of signatures is a parameter.
-- - Broker: the callbacks of app/broker/consumer.py, `handle_transfer_rejected` and
--   `handle_transfer_approved`.
-- - Requests: sequences of these requests and messages, each in a session of its own, and the
--   invariant that they keep.
-- - Fireblocks: app/services/custody/fireblocks/utils.py and asset_mapper.py, between assets and
--   the provider's identifiers for them; Search and Paging are `find_asset_by_contract_or_currency`
--   and `get_vaults` of service.py, Resolver is resolver.py.
-- - Locks: app/services/redis_client.py, `init_redis`, `get_redis` and `DistributedLock`, and
--   processes that enter and leave a lock, as a list of events; Redis is a record of its commands,
--   with what its documentation says of them as laws. AssetSync: the refresh of
--   app/services/asset_sync.py under the lock.
-- - BalanceSync: app/services/balance_sync.py, the balances of the treasury's wallets and the pass
--   over the queue that follows.
-- - Outside: what a request takes from elsewhere, as parameters: the time, fresh identifiers,
--   Python's `Decimal`, and the answers of the custody provider.
-- - Common: lists, integers, texts and tables that these share. Tests: runs and examples.
--
-- How values are modelled. An amount is `Numeric(36, 18)`, here an integer that counts units of
-- 10^-18; negative amounts are allowed, and the overflow of the column is not modelled. UUIDs and
-- times are numbers. The column `status` is a text: a known status or any other text. Rows are in
-- table order, and rows that tie in `ORDER BY` follow it. `UPPER` and `.upper()` are those of ASCII.
-- Python's floats, where the provider still sends them, are the text that `str` gives for them.
--
-- The sessions are made with `autoflush=False`: a row that is only added is seen by queries after the
-- next flush or commit. The operations on transfers flush at once; a wallet that an activation makes
-- is inserted with the commit, and the lowered balance of an internal transfer's source is written
-- with the first flush of the queue that follows.
--
-- Recursion is structural, but for the pages of `get_vaults`, which take fuel: as much as there are
-- paths that the provider's answers lead to, and one more, is enough, since no path is requested
-- twice.
--
-- What is not modelled: failures of the database connection and of constraints within a request,
-- and what runs concurrently with it (each statement, and each request, is a step by itself; the
-- processes of a lock are interleaved, each entry and each exit one step); log
-- lines and the texts of HTTP errors; whether a message or a callback was taken; the reports
-- of the queue and the percentages of the treasury's overview; the whitelist, the vault and wallet APIs
-- and the loops that repeat the synchronisations; HTTP and message clients, which are I/O.
pub mod Common
pub mod Models
pub mod Ledger
pub mod Custody
pub mod Fireblocks
pub mod Storage
pub mod Locks
pub mod Session
pub mod Transfers
pub mod Outside
pub mod AssetSync
pub mod BalanceSync
pub mod Activation
pub mod Bootstrap
pub mod Api
pub mod Webhook
pub mod Broker
pub mod Treasury
pub mod Requests
pub mod Tests

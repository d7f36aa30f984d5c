-- ===== src/Webhook/Waiting.antt =====
-- app/dao/webhook/service.py, `_process_pending_balance_queue`, and update.py,
-- `process_pending_balance_queue_for_asset`: after a wallet has received something, the transfers
-- that wait for its asset are retried.
use custody_service.Common.{
  ℕ, Bool, Option, none, some, List, [], ◌∷◌, ◌&&◌, select, take, upper, codes_eq, same_text?,
  is_filled, if◌then◌else◌,
}
use custody_service.Models.{Db, Asset, Transfer, get_asset}
use custody_service.Session.{Action, Done, pure, gets, except, ◌>>=◌, ◌>>◌}
use custody_service.Transfers.{process_flushing}
use custody_service.Transfers.Queue.{waits, by_time}
use custody_service.Api.QueueRun.{announce_if, queue_round}
use custody_service.Webhook.Wallets.{WalletInfo}

-- `blockchain.ilike(…)`, for a name without wildcards, is equality but for the case.
pub waits_for : Asset → Transfer → Bool
waits_for a t =
    waits t
    && (codes_eq (upper t.blockchain) (upper a.blockchain)
        && same_text? t.contract_address a.contract_address)

unfoldable pub waiting_for : Asset → Db → List Transfer
unfolding waits_for
waiting_for a db = take 10 (by_time (select (waits_for a) db.transfers))

-- The loop; an exception of one round is logged, and the loop goes on.
unfoldable pub retry_each : ℕ → List Transfer → Action Done
retry_each now [] = pure tt
retry_each now (t ∷ ts) = do
  except (do queue_round now t; pure tt) (λ e. pure tt)
  retry_each now ts

-- The same with an assignment that is still to be flushed: the first round flushes it, after its
-- reservation, or else the commit.
unfoldable pub flushing_round : Action Done → ℕ → Transfer → Action Done
flushing_round flush now t = do success ← process_flushing flush now t; announce_if success t.id

abbrev pub retry_flushing : Action Done → ℕ → List Transfer → Action Done
retry_flushing flush now [] = flush
retry_flushing flush now (t ∷ ts) = do
  except (flushing_round flush now t) (λ e. pure tt)
  retry_each now ts

abbrev pub retry_for : ℕ → Option Asset → Action Done
retry_for now none = pure tt
retry_for now (some a) = do ts ← gets (waiting_for a); retry_each now ts

abbrev pub retry_for_id : ℕ → Option ℕ → Action Done
retry_for_id now none = pure tt
retry_for_id now (some asset_id) = do a ← gets (λ db. get_asset db asset_id); retry_for now a

abbrev pub flushing_for : Action Done → ℕ → Option Asset → Action Done
flushing_for flush now none = flush
flushing_for flush now (some a) = do ts ← gets (waiting_for a); retry_flushing flush now ts

abbrev pub flushing_for_id : Action Done → ℕ → Option ℕ → Action Done
flushing_for_id flush now none = flush
flushing_for_id flush now (some asset_id) = do
  a ← gets (λ db. get_asset db asset_id)
  flushing_for flush now a

unfoldable pub process_pending_balance_queue : Action Done → ℕ → WalletInfo → Action Done
unfolding retry_each waiting_for flushing_round
process_pending_balance_queue flush now info = flushing_for_id flush now info.asset_id

unfoldable pub process_pending_balance_queue_for_asset : ℕ → WalletInfo → Action Done
unfolding retry_each waiting_for
process_pending_balance_queue_for_asset now info =
    if is_filled info.blockchain then retry_for_id now info.asset_id else pure tt

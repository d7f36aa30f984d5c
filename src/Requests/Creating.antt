-- ===== src/Requests/Creating.antt =====
-- Creations keep the tables valid.
use custody_service.Common.{String, ◌≡◌, Bool, true, false, Option, none, some, ℤ, pos, ◌≤ℤ◌}
use custody_service.Models.{Db, Transfer}
use custody_service.Ledger.HotWallet.{Row, no_hot_wallet, insufficient_balance}
use custody_service.Outside.{Outside}
use custody_service.Custody.{Custody}
use custody_service.Session.{Error, http, shortage, decimal_error}
use custody_service.Session.Keeping.{IsKeeping, keeping, given-IsKeeping}
use custody_service.Transfers.{new_row}
use custody_service.Bootstrap.Effects.{ensure_asset_in_hot_wallet-IsKeeping}
use custody_service.Api.Direct.{ExternalTransferRequest, refuse_found, refuse_existing}
use custody_service.Api.Creation.{
  select_for, reserve_now, retry_if, still_short, activate_and_retry, reserve_or_wait,
  announce_reserved, with_source, record_transfer, answer_for, http_or_500, create_selected,
}
use custody_service.Requests.Validity.{IsValid}
use custody_service.Requests.Steps.{
  IsValid-Admits, save-IsKeeping, reserve_hot_wallet-IsKeeping, created-IsKeeping,
}

-- The amount of a request, if it is a number, is not negative.
abbrev pub IsSoundAmount : Outside → String → Type 0
IsSoundAmount o s = (n : ℤ) → o.decimal s ≡ some n → pos 0 ≤ℤ n

pub http_or_500-IsKeeping :
    (I : Db → Type 0) (A : Type 0) (e : Error) → IsKeeping I {A = A} (http_or_500 e)
http_or_500-IsKeeping I A (http n) = search keeping
http_or_500-IsKeeping I A e = search keeping depth 8

module _ (o : Outside) where
  refuse_found-IsKeeping : (t : Option Transfer) → IsKeeping IsValid (refuse_found t)
  refuse_found-IsKeeping none = search keeping
  refuse_found-IsKeeping (some t) = search keeping

  pub refuse_existing-IsKeeping : (i : Option String) → IsKeeping IsValid (refuse_existing i)
  refuse_existing-IsKeeping none = search keeping
  refuse_existing-IsKeeping (some i) = search (keeping, refuse_found-IsKeeping) depth 10

  pub answer_for-IsKeeping : (i : String) → IsKeeping IsValid (answer_for i)
  unfolding answer_for
  answer_for-IsKeeping i = search keeping depth 10

  module _ (c : Custody) (q : ExternalTransferRequest) (sound : IsSoundAmount o q.amount) where
    select_for-IsKeeping :
        (b : Option String) (n : ℤ) → pos 0 ≤ℤ n → IsKeeping IsValid (select_for q b n)
    unfolding select_for
    select_for-IsKeeping none n k = search keeping
    select_for-IsKeeping (some b) n k = reserve_hot_wallet-IsKeeping n k q.contract_address b

    reserve_now-IsKeeping : IsKeeping IsValid (reserve_now o q)
    unfolding reserve_now
    reserve_now-IsKeeping =
        given-IsKeeping IsValid (o.decimal q.amount) decimal_error _
          (λ n e. let k = sound n e in search (keeping, select_for-IsKeeping) depth 10)

    still_short-IsKeeping : (e : Error) → IsKeeping IsValid (still_short e)
    still_short-IsKeeping (shortage s) = search keeping
    still_short-IsKeeping e = search keeping

    retry_if-IsKeeping : (b : Bool) → IsKeeping IsValid (retry_if b (reserve_now o q))
    retry_if-IsKeeping true =
        search (keeping, reserve_now-IsKeeping, still_short-IsKeeping) depth 10
    retry_if-IsKeeping false = search keeping

    activate_and_retry-IsKeeping : (e : Error) → IsKeeping IsValid (activate_and_retry o c q e)
    unfolding activate_and_retry
    activate_and_retry-IsKeeping (shortage no_hot_wallet) =
        search
          (keeping, retry_if-IsKeeping, ensure_asset_in_hot_wallet-IsKeeping IsValid IsValid-Admits)
          depth 10
    activate_and_retry-IsKeeping (shortage insufficient_balance) = search keeping
    activate_and_retry-IsKeeping e = search keeping

    reserve_or_wait-IsKeeping : IsKeeping IsValid (reserve_or_wait o c q)
    unfolding reserve_or_wait
    reserve_or_wait-IsKeeping =
        search (keeping, reserve_now-IsKeeping, activate_and_retry-IsKeeping) depth 10

    announce_reserved-IsKeeping :
        (i b s : String) (n : ℤ) (r : Option Row)
        → IsKeeping IsValid (announce_reserved i q b s n r)
    unfolding announce_reserved
    announce_reserved-IsKeeping i b s n none = search keeping
    announce_reserved-IsKeeping i b s n (some r) = search keeping depth 10

    with_source-nonneg :
        (t : Transfer) (r : Option Row)
        → pos 0 ≤ℤ t.amount
        → pos 0 ≤ℤ (with_source o.now r t).amount
    with_source-nonneg t none k = k
    with_source-nonneg t (some r) k = k

    record_transfer-IsKeeping :
        (i : String) (n : ℤ) (r : Option Row)
        → pos 0 ≤ℤ n
        → IsKeeping IsValid (record_transfer o i q n r)
    unfolding record_transfer new_row
    record_transfer-IsKeeping i n r k =
        search
          (
            keeping, created-IsKeeping, save-IsKeeping, with_source-nonneg,
            announce_reserved-IsKeeping,
          )
          depth 16

    pub create_selected-IsKeeping : (i : String) → IsKeeping IsValid (create_selected o c i q)
    unfolding create_selected
    create_selected-IsKeeping i =
        search
          (
            keeping, given-IsKeeping, sound, refuse_found-IsKeeping, reserve_or_wait-IsKeeping,
            record_transfer-IsKeeping, answer_for-IsKeeping, http_or_500-IsKeeping,
          )
          depth 16

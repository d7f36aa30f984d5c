-- ===== src/Api/Creation/Drafts.antt =====
-- `create_external_transfer` with a selected HOT wallet, step by step.
use mathlib.Core.Option
use custody_service.Common.{
  ap, String, ◌≡◌, ◌≢◌, refl, true, Bool, Option, none, some, List, [], ◌∷◌, ◌++◌, ℤ, ◌==◌, ==_refl,
  text_eq, text_eq_refl, find, update_where, arith,
}
use custody_service.Models.{Db, Transfer}
use custody_service.Ledger.HotWallet.{
  Selection, selected, short, insufficient_balance, no_hot_wallet, select_and_reserve_hot_wallet,
  Row,
}
use custody_service.Outside.{Outside}
use custody_service.Custody.{Custody}
use custody_service.Session.{World, Result, ok, idle, respond, Event, transfer_created}
use custody_service.Transfers.{
  get_transfer_by_request_id, new_row, create_transfer, reserve_hot_wallet,
}
use custody_service.Api.Responses.{TransferResponse, response_for, transfer_to_response}
use custody_service.Api.Completion.{saved}
use custody_service.Api.Direct.{ExternalTransferRequest}
use custody_service.Api.Creation.{
  select_for, reserve_now, activate_and_retry, reserve_or_wait, selected_transfer, with_source,
  announcement, announce_reserved, record_transfer, answer_for, create_selected,
}

-- A row that is appended, and then replaced by its key, is what a test finds that no row passed.
pub find-appended :
    {A : Type 0} (p q : A → Bool) (x y : A) (xs : List A)
    → find p xs ≡ none
    → q x ≡ true
    → p y ≡ true
    → find p (update_where q (λ _. y) (xs ++ x ∷ [])) ≡ some y
find-appended p q x y [] h hq hp = rw (hq, hp) refl
find-appended p q x y (z ∷ zs) h hq hp = ground (arith, find-appended p q x y zs)

-- A request with a request id of its own whose fields are all given.
pub record IsComplete (o : Outside) (q : ExternalTransferRequest) (db : Db) (request_id : String)
    (blockchain currency : String) (n dollars : ℤ) : Type 0 where
  pub fresh : get_transfer_by_request_id request_id db ≡ none
  pub chain : q.blockchain ≡ some blockchain
  pub symbol : q.asset ≡ some currency
  pub amount : o.decimal q.amount ≡ some n
  pub usd : q.amount_usd ≡ some dollars

module _ (o : Outside) (q : ExternalTransferRequest) (db : Db) (es : List Event)
    (request_id : String) (blockchain currency : String) (n dollars : ℤ) where
  -- The new row, the tables and the outcome, as the code puts them together.
  abbrev pub drafted : Option Row → Transfer
  drafted r =
      with_source o.now r
        (new_row o.now o.new_id (selected_transfer request_id q blockchain currency n r))

  abbrev pub with_draft : Option Row → Db → Db
  with_draft r d = saved (drafted r) (record d {
    transfers =
        d.transfers
        ++ new_row o.now o.new_id (selected_transfer request_id q blockchain currency n r) ∷ [];
  })

  abbrev pub by_draft : Selection → Result TransferResponse × World
  by_draft (selected r ws) =
      let d = with_draft (some r) (record db { wallets = ws }) in
      (
        ok (response_for d (drafted (some r)) dollars),
        idle d (
            es
            ++ transfer_created (announcement request_id q blockchain currency n dollars r) ∷ []),
      )
  by_draft (short s) =
      let d = with_draft none db in (ok (response_for d (drafted none) dollars), idle d es)

  found_draft :
      (r : Option Row) (d : Db)
      → get_transfer_by_request_id request_id d ≡ none
      → get_transfer_by_request_id request_id (with_draft r d) ≡ some (drafted r)
  unfolding new_row
  found_draft none d e =
      find-appended (λ (t : Transfer). text_eq t.request_id request_id) (λ t. t.id == o.new_id) _
        (drafted none) d.transfers e (==_refl o.new_id) (text_eq_refl request_id)
  found_draft (some r) d e =
      find-appended (λ (t : Transfer). text_eq t.request_id request_id) (λ t. t.id == o.new_id) _
        (drafted (some r)) d.transfers e (==_refl o.new_id) (text_eq_refl request_id)

  announced :
      (r : Row) (w : World)
      → q.amount_usd ≡ some dollars
      → announce_reserved request_id q blockchain currency n (some r) w ≡ (
        ok tt,
        record w {
          sent =
              w.sent
              ++ transfer_created (announcement request_id q blockchain currency n dollars r) ∷ [];
        },
      )
  unfolding announce_reserved
  announced r w e = rw e refl

  answered_draft :
      (r : Option Row) (d : Db)
      → q.amount_usd ≡ some dollars
      → transfer_to_response d (drafted r) ≡ some (response_for d (drafted r) dollars)
  unfolding transfer_to_response new_row
  answered_draft none d e = ap (Option.map (response_for d (drafted none))) e
  answered_draft (some r) d e = ap (Option.map (response_for d (drafted (some r)))) e

  pub create_selected-draft :
      (c : Custody)
      → IsComplete o q db request_id blockchain currency n dollars
      → select_and_reserve_hot_wallet db q.contract_address blockchain n ≢ short no_hot_wallet
      → respond (create_selected o c request_id q) (idle db es)
        ≡ by_draft (select_and_reserve_hot_wallet db q.contract_address blockchain n)
  unfolding create_selected reserve_or_wait reserve_now select_for reserve_hot_wallet
      record_transfer answer_for create_transfer activate_and_retry
  create_selected-draft c h seen =
      go (select_and_reserve_hot_wallet db q.contract_address blockchain n) refl
    where
      go :
          (s : Selection)
          → select_and_reserve_hot_wallet db q.contract_address blockchain n ≡ s
          → respond (create_selected o c request_id q) (idle db es) ≡ by_draft s
      go (selected r ws) e =
          rw
            (
              h.fresh,
              h.amount,
              h.chain,
              e,
              h.symbol,
              λ (w : World). announced r w h.usd,
              found_draft (some r) (record db { wallets = ws }) h.fresh,
              λ (d : Db). answered_draft (some r) d h.usd,
            )
            refl
      go (short insufficient_balance) e =
          rw
            (
              h.fresh,
              h.amount,
              h.chain,
              e,
              h.symbol,
              found_draft none db h.fresh,
              λ (d : Db). answered_draft none d h.usd,
            )
            refl
      go (short no_hot_wallet) e = absurd (seen e)

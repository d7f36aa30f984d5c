-- ===== src/Api/Internal/Atomic.antt =====
-- `create_internal_transfer` is all or nothing.
use mathlib.Core.Option
use custody_service.Common.{
  ℕ, String, ◌≡◌, refl, Bool-cases, Option-cases, Option, none, some, inl, inr, List, [], ◌∷◌, ◌++◌,
  ℤ, ◌==◌, ==_refl, text_eq, text_eq_refl, find,
}
use custody_service.Models.{Db, Vault, Asset, Wallet, Transfer, get_vault}
use custody_service.Ledger.{reserve_balance}
use custody_service.Outside.{Outside, ProviderTx, FbTx}
use custody_service.Session.{World, Event, idle, except, or_raise, type_error}
use custody_service.Session.Reading.{IsReading, IsCleanAt, reading, bind-IsCleanAt}
use custody_service.Transfers.{get_transfer_by_request_id, create_transfer, new_row}
use custody_service.Api.Responses.{transfer_to_response, response_for}
use custody_service.Api.Completion.{saved}
use custody_service.Api.Direct.{dollars_or, refuse_found, refuse_existing, placed}
use custody_service.Api.Creation.{answer_for, http_or_500}
use custody_service.Api.Creation.Drafts.{find-appended}
use custody_service.Api.Internal.{
  InternalTransferRequest, Destination, destination_of, whitelisted, payment_to, internal_payment,
  internal_transfer, send_internal, internal_id, create_internal_transfer,
}

refuse_found-IsReading : (t : Option Transfer) → IsReading (refuse_found t)
refuse_found-IsReading none = search reading
refuse_found-IsReading (some t) = search reading

refuse_existing-IsReading : (i : Option String) → IsReading (refuse_existing i)
refuse_existing-IsReading none = search reading
refuse_existing-IsReading (some i) = search (reading, refuse_found-IsReading) depth 10

module _ (o : Outside) (q : InternalTransferRequest) where
  whitelisted-IsReading :
      (v : Vault) (a : Asset) (s : Option String) → IsReading (whitelisted o v a s)
  whitelisted-IsReading v a none = search reading
  whitelisted-IsReading v a (some s) = search reading depth 12

  destination_of-IsReading :
      (v : Vault) (a : Asset) (i : Option ℕ) → IsReading (destination_of o v a q i)
  unfolding destination_of
  destination_of-IsReading v a none = whitelisted-IsReading v a q.to_address
  destination_of-IsReading v a (some i) = search reading depth 12

  module _ (db : Db) (es : List Event) (request_id : String)
      (fresh : get_transfer_by_request_id request_id db ≡ none) (v : Vault) (a : Asset) (w : Wallet)
      (n : ℤ) where
    abbrev row : Destination → FbTx → Transfer
    row d x = placed x (new_row o.now o.new_id (internal_transfer request_id q v a w n d))

    -- The tables with the new row.
    abbrev stored : Destination → FbTx → List Wallet → Db
    stored d x ws = saved (row d x) (record db {
      wallets = ws;
      transfers =
          db.transfers ++ new_row o.now o.new_id (internal_transfer request_id q v a w n d) ∷ [];
    })

    found_placed :
        (d : Destination) (x : FbTx) (ws : List Wallet)
        → get_transfer_by_request_id request_id (stored d x ws) ≡ some (row d x)
    unfolding new_row
    found_placed d x ws =
        find-appended (λ (t : Transfer). text_eq t.request_id request_id) (λ t. t.id == o.new_id) _
          (row d x) db.transfers fresh (==_refl o.new_id) (text_eq_refl request_id)

    answered_row :
        (d : Destination) (x : FbTx) (u : Db)
        → transfer_to_response u (row d x)
          ≡ some (response_for u (row d x) (dollars_or q.amount_usd))
    unfolding transfer_to_response new_row
    answered_row d x u = refl

    -- The payment, if the vault that it goes to is there.
    abbrev paid_to : Destination → List Vault → Option ℕ → Option ProviderTx
    paid_to d vs none = some (internal_payment request_id q v a none (some d.address))
    paid_to d vs (some i) =
        Option.map
          (λ (to : Vault). internal_payment request_id q v a (some to.provider_vault_id) none)
          (find (λ (to : Vault). to.id == i) vs)

    payment_reads :
        (d : Destination) (i : Option ℕ) (u : World)
        → payment_to request_id q v a d i u ≡ or_raise (paid_to d u.db.vaults i) type_error u
    payment_reads d none u = refl
    payment_reads d (some i) u = elim (Option-cases (get_vault u.db i)) [
      | inl e ↦ rw e refl
      | inr (to, e) ↦ rw e refl
    ]

    sent_clean :
        (d : Destination)
        → IsCleanAt (idle db es) (except (send_internal o request_id q v a w n d) http_or_500)
    unfolding IsCleanAt send_internal create_transfer answer_for
    sent_clean d = elim (Bool-cases (reserve_balance w.id n db.wallets).1) [
      | inr e ↦ rw e (refl, refl)
      | inl e ↦ elim (Option-cases (paid_to d db.vaults d.vault_id)) [
        | inl gone ↦ rw (e, λ (u : World). payment_reads d d.vault_id u, gone) (refl, refl)
        | inr (tx, to) ↦ elim (Option-cases (o.create_transaction tx)) [
          | inl refused ↦
              rw (e, λ (u : World). payment_reads d d.vault_id u, to, refused) (refl, refl)
          | inr (x, taken) ↦
              rw
                (
                  e,
                  λ (u : World). payment_reads d d.vault_id u,
                  to,
                  taken,
                  found_placed d x (reserve_balance w.id n db.wallets).0,
                  answered_row d x (stored d x (reserve_balance w.id n db.wallets).0),
                )
                tt
        ]
      ]
    ]

  -- For a request id that no transfer has: whatever the request, the tables and the provider's
  -- answers, if the creation of an internal transfer ends in an exception (404, 409 or 400, an amount
  -- that is no number, a refusal of the provider, 500), then nothing is committed and nothing is
  -- sent, so that no reservation is left behind.
  pub create_internal_transfer-IsCleanAt :
      (db : Db) (es : List Event)
      → get_transfer_by_request_id (internal_id o q.request_id) db ≡ none
      → IsCleanAt (idle db es) (create_internal_transfer o q)
  unfolding create_internal_transfer
  create_internal_transfer-IsCleanAt db es fresh =
      let sent = sent_clean db es (internal_id o q.request_id) fresh in
      search (reading, bind-IsCleanAt, sent, refuse_existing-IsReading, destination_of-IsReading)
        depth 24 fits 5000

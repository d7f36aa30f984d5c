-- ===== src/Api/Direct/Placement.antt =====
-- What a payout from a named vault does to the tables.
use custody_service.Common.{
  ℕ, String, ◌≡◌, refl, true, Option, none, some, List, [], ◌∷◌, ◌++◌, ◌==◌, ◌&&◌, ℤ, pos, ap,
  ==_refl, update_where-append, false, if◌then◌else◌, select, is_filled, Bool-cases, Option-cases,
  inl, inr,
}
use custody_service.Models.{
  Db, Vault, Asset, Wallet, Transfer, TransferStatus, Column, known, column, get_vault, get_asset,
  has_sufficient_balance,
}
use custody_service.Ledger.{reserve_balance}
use custody_service.Outside.{Outside, ProviderTx, FbTx}
use custody_service.Session.{World, Result, ok, err, idle, respond, Event, Done, provider_error}
use custody_service.Transfers.{get_transfer_by_request_id, new_row, create_transfer}
use custody_service.Api.Completion.{saved}
use custody_service.Api.Direct.{
  ExternalTransferRequest, place_direct, payment, direct_transfer, placed, refuse_existing,
}

-- What a payout finds: a request id of its own, its vault, asset and only wallet, an amount that
-- the wallet can pay, and the reservation of it, which leaves the wallets `ws`.
pub record IsPayable (o : Outside) (q : ExternalTransferRequest) (i j : ℕ) (db : Db)
    (request_id : String) (v : Vault) (a : Asset) (w : Wallet) (n : ℤ) (ws : List Wallet)
    : Type 0 where
  pub named : q.request_id ≡ some request_id
  pub fresh : get_transfer_by_request_id request_id db ≡ none
  pub vault : get_vault db i ≡ some v
  pub asset : get_asset db j ≡ some a
  pub wallet : select (λ (u : Wallet). u.vault_id == i && u.asset_id == j) db.wallets ≡ w ∷ []
  pub amount : o.decimal q.amount ≡ some n
  pub enough : has_sufficient_balance w n ≡ true
  pub reserves : reserve_balance w.id n db.wallets ≡ (ws, true)

module _ (o : Outside) (q : ExternalTransferRequest) (request_id : String) (v : Vault) (a : Asset)
    (w : Wallet) (n : ℤ) where
  -- What the provider is asked for; an empty note is left out.
  abbrev pub asked : ProviderTx
  asked = record {
    asset_id = a.asset;
    source = v.provider_vault_id;
    to_vault = none;
    to_address = some q.to_address;
    amount = q.amount;
    external_tx_id = request_id;
    note = if is_filled q.note then q.note else none;
  }

  -- The request's text, or the asset's where it is missing or empty.
  abbrev either : Option String → String → String
  either none default = default
  either (some s) default = if is_filled (some s) then s else default

  abbrev contract_used : Option String → Option String → Option String
  contract_used none default = default
  contract_used (some s) default = some s

  abbrev dollars_given : Option ℤ → ℤ
  dollars_given none = pos 0
  dollars_given (some d) = d

  -- The status that the provider says, if it says one.
  abbrev status_said : Option String → Column → Column
  status_said none default = default
  status_said (some s) default = if is_filled (some s) then column s else default

  abbrev pub sent_row : FbTx → Transfer
  sent_row x = record {
    id = o.new_id;
    request_id = request_id;
    is_internal = false;
    vault_id = some v.id;
    wallet_id = some w.id;
    asset_id = some a.id;
    source_address = some w.address;
    currency = either q.asset a.symbol;
    contract_address = contract_used q.contract_address a.contract_address;
    blockchain = either q.blockchain a.blockchain;
    network = none;
    destination_address = q.to_address;
    destination_tag = q.destination_tag;
    to_vault_id = none;
    amount = n;
    amount_usd = some (dollars_given q.amount_usd);
    status = status_said x.status (known TransferStatus.signing);
    provider_tx_id = some x.id;
    tx_hash = x.tx_hash;
    note = q.note;
    reserved_at = some o.now;
    completed_at = none;
    created_at = o.now;
    error_message = none;
    retry_count = 0;
  }

  -- The tables and the answer, by what the provider says; `ws` are the wallets with the reserve.
  abbrev pub sent_or_not : Db → List Event → List Wallet → Option FbTx → Result Done × World
  sent_or_not db es ws none = (err provider_error, idle db es)
  sent_or_not db es ws (some x) = (
    ok tt,
    idle
        (saved (sent_row x)
          (record db { wallets = ws; transfers = db.transfers ++ sent_row x ∷ [] }))
        es,
  )

  -- The row as the code inserts it first, and completes it then.
  abbrev drafted : Transfer
  drafted = new_row o.now o.new_id (direct_transfer request_id q v a w n)

  appended :
      (d : Db) (x : FbTx)
      → saved (placed x drafted) (record d { transfers = d.transfers ++ drafted ∷ [] })
        ≡ saved (sent_row x) (record d { transfers = d.transfers ++ sent_row x ∷ [] })
  unfolding new_row
  appended d x =
      ap (λ ts. record d { transfers = ts })
        (update_where-append (λ (t : Transfer). t.id == o.new_id) drafted (sent_row x) d.transfers
          (==_refl o.new_id) (==_refl o.new_id))

not_refused :
    (given : Option String) (request_id : String) (db : Db) (es : List Event)
    → given ≡ some request_id
    → get_transfer_by_request_id request_id db ≡ none
    → refuse_existing given (idle db es) ≡ (ok tt, idle db es)
not_refused given request_id db es named fresh =
    rw named (elim (Bool-cases (is_filled (some request_id))) [
      | inl e ↦ rw (e, fresh) refl
      | inr e ↦ rw e refl
    ])

-- For a payout with a request id that is not in use, whose vault, asset and only wallet are found,
-- and whose amount the wallet can pay and reserves: if the provider takes it, the reserve and a new
-- row, with the request's fields and the provider's id, hash and status, are committed; if it refuses, the request ends in
-- its exception, the reservation is undone and no row is added. No message is sent.
pub place_direct-Sends :
    (o : Outside) (q : ExternalTransferRequest) (i j : ℕ) (db : Db) (es : List Event)
    (request_id : String) (v : Vault) (a : Asset) (w : Wallet) (n : ℤ) (ws : List Wallet)
    → IsPayable o q i j db request_id v a w n ws
    → respond (place_direct o request_id q i j) (idle db es)
      ≡ sent_or_not o q request_id v a w n db es ws
          (o.create_transaction (asked o q request_id v a w n))
unfolding place_direct create_transfer
place_direct-Sends o q i j db es request_id v a w n ws h =
    let fresh = not_refused q.request_id request_id db es h.named h.fresh in
    elim (Option-cases (o.create_transaction (payment request_id q v a))) [
      | inl e ↦ rw (h.vault, h.asset, fresh, h.wallet, h.amount, h.enough, h.reserves, e) refl
      | inr (x, e) ↦
          rw
            (
              h.vault,
              h.asset,
              fresh,
              h.wallet,
              h.amount,
              h.enough,
              h.reserves,
              e,
              appended o q request_id v a w n (record db { wallets = ws }) x,
            )
            refl
    ]

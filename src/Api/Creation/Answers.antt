-- ===== src/Api/Creation/Answers.antt =====
-- `create_external_transfer` with a selected HOT wallet: its answer, the tables and the messages.
use custody_service.Common.{
  ap, ◌∙◌, update_where-append, String, ◌≡◌, ◌≢◌, false, Option, none, some, List, [], ◌∷◌, ◌++◌, ℤ,
  ◌==◌, ==_refl,
}
use custody_service.Models.{Db, Transfer, TransferStatus, known, get_vault}
use custody_service.Ledger.HotWallet.{
  Selection, selected, short, no_hot_wallet, select_and_reserve_hot_wallet, Row,
}
use custody_service.Ledger.{reserve_balance}
use custody_service.Ledger.HotWallet.Reservation.{
  Outcome, select_and_reserve-Outcome, selected-reserve_balance,
}
use custody_service.Outside.{Outside}
use custody_service.Custody.{Custody}
use custody_service.Session.{
  World, Result, ok, idle, respond, Event, CreatedMessage, transfer_created,
}
use custody_service.Transfers.{new_row}
use custody_service.Api.Responses.{TransferResponse, provider_id, response_for}
use custody_service.Api.Completion.{saved}
use custody_service.Api.Direct.{ExternalTransferRequest}
use custody_service.Api.Creation.{create_selected}
use custody_service.Api.Creation.Drafts.{IsComplete, with_draft, by_draft, create_selected-draft}

module _ (o : Outside) (q : ExternalTransferRequest) (db : Db) (es : List Event)
    (request_id : String) (blockchain currency : String) (n dollars : ℤ) where
  -- The row of a transfer that waits, and that of one whose wallet is selected.
  abbrev pub waiting_row : Transfer
  waiting_row = record {
    id = o.new_id;
    request_id = request_id;
    is_internal = false;
    vault_id = none;
    wallet_id = none;
    asset_id = none;
    source_address = none;
    currency = currency;
    contract_address = q.contract_address;
    blockchain = blockchain;
    network = none;
    destination_address = q.to_address;
    destination_tag = q.destination_tag;
    to_vault_id = none;
    amount = n;
    amount_usd = q.amount_usd;
    status = known TransferStatus.pending_balance;
    provider_tx_id = none;
    tx_hash = none;
    note = q.note;
    reserved_at = none;
    completed_at = none;
    created_at = o.now;
    error_message = none;
    retry_count = 0;
  }

  abbrev pub made : Option Row → Transfer
  made none = waiting_row
  made (some r) = record waiting_row {
    vault_id = some r.vault.id;
    wallet_id = some r.wallet.id;
    asset_id = some r.asset.id;
    source_address = some r.wallet.address;
    status = known TransferStatus.pending_approval;
    reserved_at = some o.now;
  }

  abbrev pub with_made : Option Row → Db → Db
  with_made r d = saved (made r) (record d { transfers = d.transfers ++ made r ∷ [] })

  abbrev pub paying_vault : Db → Option Row → Option String
  paying_vault d none = none
  paying_vault d (some r) = provider_id (get_vault d r.vault.id)

  -- The answer shows the row.
  abbrev pub shown : Db → Option Row → TransferResponse
  shown d r =
      let t = made r in
      record {
        transfer_id = t.id;
        request_id = t.request_id;
        status = t.status;
        is_internal = false;
        from_vault_id = t.vault_id;
        source_vault_id = paying_vault d r;
        source_address = t.source_address;
        destination_address = q.to_address;
        to_address = q.to_address;
        destination_tag = q.destination_tag;
        to_vault_id = none;
        amount = n;
        amount_usd = dollars;
        asset = currency;
        blockchain = blockchain;
        contract_address = q.contract_address;
        provider_tx_id = none;
        tx_hash = none;
        error_message = none;
        created_at = o.now;
      }

  abbrev pub told : Row → CreatedMessage
  told r = record {
    request_id = request_id;
    destination_address = q.to_address;
    destination_tag = q.destination_tag;
    amount = n;
    amount_usd = some dollars;
    asset = currency;
    contract_address = q.contract_address;
    blockchain = blockchain;
    currency = r.asset.symbol;
    network = r.asset.network;
    source_vault_id = some r.vault.provider_vault_id;
    source_address = some r.wallet.address;
    fireblocks_asset_id = some r.asset.asset;
  }

  -- The outcome, by the selection.
  abbrev pub by_selection : Selection → Result TransferResponse × World
  by_selection (selected r ws) =
      let d =
        with_made (some r) (record db { wallets = (reserve_balance r.wallet.id n db.wallets).0 }) in
      (ok (shown d (some r)), idle d (es ++ transfer_created (told r) ∷ []))
  by_selection (short s) = let d = with_made none db in (ok (shown d none), idle d es)

  appended :
      (r : Option Row) (d : Db)
      → with_draft o q db es request_id blockchain currency n dollars r d ≡ with_made r d
  unfolding new_row
  appended none d =
      ap (λ ts. record d { transfers = ts })
        (update_where-append (λ (t : Transfer). t.id == o.new_id) _ (made none) d.transfers
          (==_refl o.new_id) (==_refl o.new_id))
  appended (some r) d =
      ap (λ ts. record d { transfers = ts })
        (update_where-append (λ (t : Transfer). t.id == o.new_id) _ (made (some r)) d.transfers
          (==_refl o.new_id) (==_refl o.new_id))

  pinned :
      (s : Selection)
      → Outcome db q.contract_address blockchain n s
      → by_draft o q db es request_id blockchain currency n dollars s ≡ by_selection s
  unfolding new_row response_for
  pinned (selected r ws) out =
      ap (λ (d : Db). (ok (shown d (some r)), idle d (es ++ transfer_created (told r) ∷ [])))
        (appended (some r) (record db { wallets = ws })
          ∙ ap (λ xs. with_made (some r) (record db { wallets = xs }))
              (selected-reserve_balance db q.contract_address blockchain n r ws out))
  pinned (short s) out = ap (λ (d : Db). (ok (shown d none), idle d es)) (appended none db)

  -- For a creation with a request id that is not in use and all fields given, where the selection
  -- sees some HOT wallet of the asset. If one can pay: `reserve_balance` is run for the amount on
  -- the selected wallet, a new row in status `pending_approval` with that wallet is committed, one
  -- `transfer_created` message is sent, and the answer shows the row. If none can: a row in status
  -- `pending_balance` without a wallet is committed, no wallet changes, and nothing is sent.
  pub create_selected-Answer :
      (c : Custody)
      → IsComplete o q db request_id blockchain currency n dollars
      → select_and_reserve_hot_wallet db q.contract_address blockchain n ≢ short no_hot_wallet
      → respond (create_selected o c request_id q) (idle db es)
        ≡ by_selection (select_and_reserve_hot_wallet db q.contract_address blockchain n)
  create_selected-Answer c h seen =
      create_selected-draft o q db es request_id blockchain currency n dollars c h seen
      ∙ pinned (select_and_reserve_hot_wallet db q.contract_address blockchain n)
          (select_and_reserve-Outcome db q.contract_address blockchain n)

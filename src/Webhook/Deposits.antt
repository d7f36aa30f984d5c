-- ===== src/Webhook/Deposits.antt =====
-- app/dao/webhook/update.py, create.py and service.py: a deposit, which is recorded in
-- `transactions`, told to the backend, and, once completed, written to the wallet's balance.
use custody_service.Common.{
  ℕ, String, ◌&&◌, ◌==◌, Option, none, some, ℤ, select, update_where, is_filled, text_eq,
  if◌then◌else◌,
}
use custody_service.Models.{Db, Asset, Wallet, Transaction, get_wallet, get_asset}
use custody_service.Outside.{Outside}
use custody_service.Session.{
  Action, Done, custody_webhook, pure, gets, modify, send, scalar_one_or_none, ◌>>=◌, ◌>>◌,
}
use custody_service.Webhook.Payload.{AmountInfo, Details, WebhookResult}
use custody_service.Webhook.Wallets.{WalletInfo, identify_wallet}
use custody_service.Webhook.Amounts.{
  number, parse_amount, parse_net_amount_decimal, parse_amount_usd,
  map_fireblocks_to_invoice_status,
}
use custody_service.Webhook.Outgoing.{
  new_transaction, add_transaction, save_transaction, transaction_of, refreshed, info_vault,
  info_wallet, info_asset,
}
use custody_service.Webhook.Waiting.{process_pending_balance_queue_for_asset}

abbrev pub wallet_in : ℕ → Option ℕ → Action (Option Wallet)
wallet_in vault_id none = pure none
wallet_in vault_id (some asset_id) = do
  rows ←
      gets
        (λ db. select (λ (w : Wallet). w.vault_id == vault_id && w.asset_id == asset_id) db.wallets)
  scalar_one_or_none rows

abbrev pub wallet_found : WalletInfo → Option ℕ → Action (Option Wallet)
wallet_found info (some wallet_id) = gets (λ db. get_wallet db wallet_id)
wallet_found info none = wallet_in info.vault_id info.asset_id

-- An attribute of a loaded wallet is assigned.
abbrev pub save_wallet : Wallet → Action Done
save_wallet w =
    modify (λ db. record db {
      wallets = update_where (λ (v : Wallet). v.id == w.id) (λ _. w) db.wallets;
    })

abbrev pub set_balance : Outside → Details → Option Wallet → Action Done
set_balance o d none = pure tt
set_balance o d (some w) = do
  n ← parse_net_amount_decimal o d
  save_wallet (record w { balance = n })

unfoldable pub update_wallet_balance : Outside → WalletInfo → Details → Action Done
unfolding parse_net_amount_decimal
update_wallet_balance o info d = do
  wallet ← wallet_found info info.wallet_id
  set_balance o d wallet

-- `asset.network`, if there is one
abbrev network_of : Option Asset → String
network_of none = "BASE_ASSET"
network_of (some a) = if is_filled (some a.network) then a.network else "BASE_ASSET"

abbrev asset_for : Db → Option ℕ → Option Asset
asset_for db none = none
asset_for db (some i) = get_asset db i

abbrev pub tell : Outside → WalletInfo → Details → Option String → Option String → Action Done
tell o info d (some blockchain) (some currency) =
    if is_filled (some blockchain) && is_filled (some currency)
    then (do
      amount ← parse_net_amount_decimal o d
      asset ← gets (λ db. asset_for db info.asset_id)
      send (
          custody_webhook (record {
            custody_vault_id = info.vault_id;
            amount = amount;
            blockchain = blockchain;
            currency = currency;
            network = network_of asset;
            status = map_fireblocks_to_invoice_status d.status;
            tx_hash = d.tx_hash;
            confirmations = d.num_of_confirmations;
            asset_id = d.asset_id;
          })))
    else pure tt
tell o info d _ _ = pure tt

unfoldable pub notify_backend_about_deposit : Outside → WalletInfo → Details → Action Done
unfolding parse_net_amount_decimal map_fireblocks_to_invoice_status
notify_backend_about_deposit o info d = tell o info d info.blockchain info.currency

-- A new row: the balance is written on COMPLETED, the backend is always told.
abbrev pub after_creation : Outside → Details → Option WalletInfo → Action Done
after_creation o d none = pure tt
after_creation o d (some info) = do
  (if text_eq d.status "COMPLETED" then update_wallet_balance o info d else pure tt)
  notify_backend_about_deposit o info d

unfoldable pub create_transaction : Outside → String → Details → Action WebhookResult
unfolding identify_wallet parse_amount parse_amount_usd update_wallet_balance
    notify_backend_about_deposit
create_transaction o raw_body d = do
  info ← identify_wallet o d
  amount ← parse_amount o d
  amount_usd ← parse_amount_usd o d
  add_transaction (new_transaction o.new_id none d raw_body info amount amount_usd)
  after_creation o d info
  pure (record {
    status = "created";
    transaction_id = some o.new_id;
    provider_tx_id = some d.id;
    amount = some amount;
    vault_id = info_vault info;
    wallet_id = info_wallet info;
    asset_id = info_asset info;
  })

-- `Decimal(…)` of a field of `amountInfo`, if it is there and not empty.
abbrev pub info_number :
    Outside → (AmountInfo → Option String) → Option AmountInfo → Action (Option ℤ)
info_number o field none = pure none
info_number o field (some i) = if is_filled (field i) then number o (field i) else pure none

abbrev amount_or : Option ℤ → ℤ → ℤ
amount_or none old = old
amount_or (some n) old = n

abbrev or_old : Option ℤ → Option ℤ → Option ℤ
or_old none old = old
or_old (some n) old = some n

-- A further notification: on COMPLETED the waiting transfers are retried besides.
abbrev pub after_update : Outside → Details → Option WalletInfo → Action Done
after_update o d none = pure tt
after_update o d (some info) = do
  (if text_eq d.status "COMPLETED"
      then (do update_wallet_balance o info d; process_pending_balance_queue_for_asset o.now info)
      else pure tt)
  notify_backend_about_deposit o info d

unfoldable pub update_transaction : Outside → String → Details → Transaction → Action WebhookResult
unfolding identify_wallet update_wallet_balance notify_backend_about_deposit
    process_pending_balance_queue_for_asset
update_transaction o raw_body d x = do
  amount ← info_number o (λ (i : AmountInfo). i.amount) d.amount_info
  amount_usd ← info_number o (λ (i : AmountInfo). i.amount_usd) d.amount_info
  save_transaction (record (refreshed d raw_body x) {
    amount = amount_or amount x.amount;
    amount_usd = or_old amount_usd x.amount_usd;
  })
  info ← identify_wallet o d
  after_update o d info
  pure (record {
    status = "updated";
    transaction_id = some x.id;
    provider_tx_id = some d.id;
    amount = none;
    vault_id = x.vault_id;
    wallet_id = x.wallet_id;
    asset_id = x.asset_id;
  })

abbrev pub deposit_of : Outside → String → Details → Option Transaction → Action WebhookResult
deposit_of o raw_body d none = create_transaction o raw_body d
deposit_of o raw_body d (some x) = update_transaction o raw_body d x

unfoldable pub process_incoming_deposit : Outside → String → Details → Action WebhookResult
unfolding create_transaction update_transaction
process_incoming_deposit o raw_body d = do
  existing ← gets (transaction_of d.id)
  deposit_of o raw_body d existing

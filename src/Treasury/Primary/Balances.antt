-- ===== src/Treasury/Primary/Balances.antt =====
-- A synchronisation of the balances keeps one primary vault for each type.
use custody_service.Common.{
  ℕ, String, ◌≡◌, refl, sym, subst, ◌∙◌, Bool, true, false, Option, none, some, List, [], ◌∷◌, ℤ,
  ◌==◌, select, text_eq, eqb_ℤ, if◌then◌else◌,
}
use custody_service.Models.{Db, Vault, Wallet, Transfer}
use custody_service.Outside.{Outside}
use custody_service.Custody.{Reply, answer, failure}
use custody_service.Ledger.HotWallet.{Selection, selected, short}
use custody_service.Session.{World, Error, shortage, pure, ◌>>=◌}
use custody_service.Session.Keeping.{IsKeeping, Holds, keeping, modify-IsKeeping, bind-IsKeeping}
use custody_service.Transfers.{
  process_pending_balance_transfer, update_transfer_with_wallet, waiting, settled,
  reserve_hot_wallet, save,
}
use custody_service.BalanceSync.{
  ReportedBalance, SyncStats, after_pass, sync_wallet, sync_wallets, sync_reply, sync_balances,
  no_stats, treasury_vaults, sync_vault, sync_vaults, balances_of, sync_treasury_balances,
}
use custody_service.BalanceSync.Waiting.{
  sync_round, sync_rounds, one_more, _process_pending_queue_after_sync,
}
use custody_service.BalanceSync.Publishing.{publish_if-IsKeeping}
use custody_service.Treasury.Primary.{HasSinglePrimary, IsSinglePrimary}

if-vaults :
    (b : Bool) (x y : SyncStats × Db) (vs : List Vault)
    → x.1.vaults ≡ vs
    → y.1.vaults ≡ vs
    → (if b then x else y).1.vaults ≡ vs
if-vaults true x y vs h k = h
if-vaults false x y vs h k = k

sync_wallet-vaults :
    (w : Option Wallet) (n : ℤ) (s : SyncStats) (db : Db)
    → (sync_wallet w n s db).1.vaults ≡ db.vaults
sync_wallet-vaults none n s db = refl
sync_wallet-vaults (some w) n s db = if-vaults (eqb_ℤ n w.balance) _ _ db.vaults refl refl

module _ (o : Outside) where
  sync_wallets-vaults :
      (ws : List Wallet) (bs : List (String × ℤ)) (s : SyncStats) (db : Db)
      → (sync_wallets o ws bs s db).1.vaults ≡ db.vaults
  unfolding sync_wallets
  sync_wallets-vaults ws [] s db = refl
  sync_wallets-vaults ws (b ∷ bs) s db =
      sync_wallets-vaults ws bs _ _ ∙ sync_wallet-vaults _ b.1 s db

  sync_balances-vaults :
      (ws : List Wallet) (bs : Option (List (String × ℤ))) (s : SyncStats) (db : Db)
      → (sync_balances o ws bs s db).1.vaults ≡ db.vaults
  sync_balances-vaults ws none s db = refl
  sync_balances-vaults ws (some bs) s db = sync_wallets-vaults ws bs s db

  sync_reply-vaults :
      (ws : List Wallet) (r : Reply (Option (List ReportedBalance))) (s : SyncStats) (db : Db)
      → (sync_reply o ws r s db).1.vaults ≡ db.vaults
  sync_reply-vaults ws (failure m) s db = refl
  sync_reply-vaults ws (answer none) s db = refl
  sync_reply-vaults ws (answer (some assets)) s db =
      sync_balances-vaults ws (balances_of o.decimal assets []) _ db

  sync_vault-vaults :
      (get : String → Reply (Option (List ReportedBalance))) (v : Vault) (s : SyncStats) (db : Db)
      → (sync_vault o get v s db).1.vaults ≡ db.vaults
  sync_vault-vaults get v s db =
      if-vaults (text_eq v.provider_vault_id "") (s, db)
        (sync_reply o (select (λ (w : Wallet). w.vault_id == v.id) db.wallets)
          (get v.provider_vault_id) s db)
        db.vaults refl
        (sync_reply-vaults (select (λ (w : Wallet). w.vault_id == v.id) db.wallets)
          (get v.provider_vault_id) s db)

  sync_vaults-vaults :
      (get : String → Reply (Option (List ReportedBalance))) (vs : List Vault) (s : SyncStats)
      (db : Db)
      → (sync_vaults o get vs s db).1.vaults ≡ db.vaults
  unfolding sync_vaults
  sync_vaults-vaults get [] s db = refl
  sync_vaults-vaults get (v ∷ vs) s db =
      let r = sync_vault o get v s db in
      sync_vaults-vaults get vs r.0 r.1 ∙ sync_vault-vaults get v s db

  save-IsKeeping : (t : Transfer) → IsKeeping HasSinglePrimary (save t)
  save-IsKeeping t = modify-IsKeeping HasSinglePrimary _ (λ db h. h)

  settled-Holds :
      (s : Selection) (w : World)
      → Holds HasSinglePrimary w
      → Holds HasSinglePrimary (settled s w).1
  unfolding Holds
  settled-Holds (short s) w h = h
  settled-Holds (selected r ws) w h = h

  reserve_hot_wallet-IsKeeping :
      (c : Option String) (b : String) (n : ℤ)
      → IsKeeping HasSinglePrimary (reserve_hot_wallet c b n)
  unfolding IsKeeping reserve_hot_wallet
  reserve_hot_wallet-IsKeeping c b n w h = settled-Holds _ w h

  waiting-IsKeeping :
      (t : Transfer) (e : Error) → IsKeeping HasSinglePrimary (waiting (pure tt) t e)
  waiting-IsKeeping t (shortage s) = search (keeping, save-IsKeeping) depth 8
  waiting-IsKeeping t e = search keeping

  process-IsKeeping :
      (t : Transfer) → IsKeeping HasSinglePrimary (process_pending_balance_transfer o.now t)
  unfolding process_pending_balance_transfer update_transfer_with_wallet
  process-IsKeeping t =
      search (keeping, reserve_hot_wallet-IsKeeping, save-IsKeeping, waiting-IsKeeping) depth 16

  sync_round-IsKeeping : (t : Transfer) → IsKeeping HasSinglePrimary (sync_round o t)
  unfolding sync_round
  sync_round-IsKeeping t =
      search (keeping, process-IsKeeping, publish_if-IsKeeping HasSinglePrimary o) depth 12

  sync_rounds-IsKeeping :
      (ts : List Transfer) (k : ℕ) → IsKeeping HasSinglePrimary (sync_rounds o ts k)
  unfolding sync_rounds
  sync_rounds-IsKeeping [] k = search keeping
  sync_rounds-IsKeeping (t ∷ ts) k =
      bind-IsKeeping HasSinglePrimary _ _ (sync_round-IsKeeping t)
        (λ b. sync_rounds-IsKeeping ts (one_more b k))

  pass-IsKeeping :
      (s : SyncStats)
      → IsKeeping HasSinglePrimary (
          after_pass s (
            _process_pending_queue_after_sync o >>= λ n. pure (record s { pending_processed = n })))
  unfolding _process_pending_queue_after_sync
  pass-IsKeeping s = search (keeping, sync_rounds-IsKeeping) depth 16

  pub sync_treasury_balances-IsKeeping :
      (get : String → Reply (Option (List ReportedBalance)))
      → IsKeeping HasSinglePrimary (sync_treasury_balances o get)
  unfolding sync_treasury_balances IsKeeping Holds
  sync_treasury_balances-IsKeeping get w h =
      let same = sync_vaults-vaults get (treasury_vaults w.db) no_stats w.db in
      let h' = subst IsSinglePrimary (sym same) h.0 in
      pass-IsKeeping (sync_vaults o get (treasury_vaults w.db) no_stats w.db).0 _ (h', h')

-- ===== src/Requests/Steps.antt =====
-- The steps of a request that keep the tables valid: reserves between zero and the balances, and
-- amounts that are not negative.
use custody_service.Common.{
  ℕ, String, Option, List, [], ◌∷◌, ◌++◌, ℤ, pos, ◌≤ℤ◌, ◌==◌, All, All-update_where, arith, subst,
}
use custody_service.Models.{Wallet, Transfer}
use custody_service.Ledger.{reserve_balance}
use custody_service.Ledger.Solvency.{IsSolvent, reserving, execute, execute-IsSolvent}
use custody_service.Ledger.HotWallet.{Selection, selected, short}
use custody_service.Ledger.HotWallet.Reservation.{select_and_reserve-Outcome, Outcome}
use custody_service.Session.{World, Action, ◌>>=◌}
use custody_service.Session.Keeping.{IsKeeping, Holds, modify-IsKeeping}
use custody_service.Transfers.{
  NewTransfer, new_row, create_transfer, save, settled, on_wallets, reserve_hot_wallet,
}
use custody_service.Activation.{new_wallet, with_address}
use custody_service.Activation.Effects.{Admits}
use custody_service.Requests.Validity.{IsValid, saved-IsValid}

All-append :
    {A : Type 0} (P : A → Type 0) (xs : List A) (x : A) → All P xs → P x → All P (xs ++ x ∷ [])
All-append P [] x h k = (k, tt)
All-append P (y ∷ xs) x h k = (h.0, All-append P xs x h.1 k)

-- A new empty wallet and a new address keep the tables valid.
pub IsValid-Admits : Admits IsValid
IsValid-Admits = record {
  adds = λ db id v a x i. record {
    solvent =
        All-append IsSolvent db.wallets (new_wallet id v a x) i.solvent
          (record { reserve_nonneg = omega arith; covered = omega arith });
    nonneg = i.nonneg;
  };
  refreshes = λ db x w i. record {
    solvent =
        All-update_where IsSolvent (λ (u : Wallet). u.id == w.id) (with_address x)
          (λ u _ s. record { reserve_nonneg = s.reserve_nonneg; covered = s.covered }) db.wallets
          i.solvent;
    nonneg = i.nonneg;
  };
}

pub save-IsKeeping : (t : Transfer) → pos 0 ≤ℤ t.amount → IsKeeping IsValid (save t)
save-IsKeeping t n =
    modify-IsKeeping IsValid _ (λ db i. saved-IsValid t db.wallets db n i.solvent i)

module _ (n : ℤ) (nonneg : pos 0 ≤ℤ n) where
  pub on_wallets-IsKeeping : (i : ℕ) → IsKeeping IsValid (on_wallets (reserve_balance i n))
  unfolding IsKeeping Holds execute
  on_wallets-IsKeeping i w h = (
    record {
      solvent = execute-IsSolvent (reserving i n) w.db.wallets nonneg h.0.solvent;
      nonneg = h.0.nonneg;
    },
    h.1,
  )

  settled-Holds :
      (c : Option String) (b : String) (w : World) (s : Selection)
      → Outcome w.db c b n s
      → Holds IsValid w
      → Holds IsValid (settled s w).1
  unfolding Holds execute
  settled-Holds c b w (short s) o h = h
  settled-Holds c b w (selected r ws) (best, _, _, e) h = (
    record {
      solvent =
          subst (λ z. All IsSolvent z.0) e
            (execute-IsSolvent (reserving best.wallet.id n) w.db.wallets nonneg h.0.solvent);
      nonneg = h.0.nonneg;
    },
    h.1,
  )

  pub reserve_hot_wallet-IsKeeping :
      (c : Option String) (b : String) → IsKeeping IsValid (reserve_hot_wallet c b n)
  unfolding IsKeeping reserve_hot_wallet
  reserve_hot_wallet-IsKeeping c b w h =
      settled-Holds c b w _ (select_and_reserve-Outcome w.db c b n) h

-- A row is made, and the rest of the action uses it.
pub created-IsKeeping :
    {A : Type 0} (now id : ℕ) (t : NewTransfer) (f : Transfer → Action A)
    → pos 0 ≤ℤ t.amount
    → IsKeeping IsValid (f (new_row now id t))
    → IsKeeping IsValid (create_transfer now id t >>= f)
unfolding IsKeeping Holds create_transfer new_row
created-IsKeeping now id t f n k w h = k _ (
  record {
    solvent = h.0.solvent;
    nonneg = All-append (λ (u : Transfer). pos 0 ≤ℤ u.amount) w.db.transfers _ h.0.nonneg n;
  },
  h.1,
)

-- ===== src/Ledger/Solvency.antt =====
-- What the wallets' money statements keep: no reserve is negative or above the balance.
use custody_service.Common.{
  ℕ, ◌≡◌, true, List, [], ◌∷◌, ℤ, pos, ◌≤ℤ◌, int_laws, All, All-update_where,
}
use custody_service.Models.{Wallet}
use custody_service.Ledger.{
  reserve_balance, release_reserve, complete_transfer_balance, can_reserve, can_release,
  can_complete, reserve, release, deduct,
}
use custody_service.Ledger.Guards.{can_reserve-facts, can_release-facts, can_complete-facts}

-- The reserve lies between zero and the balance.
pub record IsSolvent (w : Wallet) : Type 0 where
  pub reserve_nonneg : pos 0 ≤ℤ w.pending_amount
  pub covered : w.pending_amount ≤ℤ w.balance

module _ (i : ℕ) (a : ℤ) (nonneg : pos 0 ≤ℤ a) (w : Wallet) where
  reserve-IsSolvent : can_reserve i a w ≡ true → IsSolvent w → IsSolvent (reserve a w)
  reserve-IsSolvent h s = let (_, fits) = can_reserve-facts i a w h in omega int_laws

  release-IsSolvent : can_release i a w ≡ true → IsSolvent w → IsSolvent (release a w)
  release-IsSolvent h s = let (_, fits) = can_release-facts i a w h in omega int_laws

  deduct-IsSolvent : can_complete i a w ≡ true → IsSolvent w → IsSolvent (deduct a w)
  deduct-IsSolvent h s = let (_, fits, _) = can_complete-facts i a w h in omega int_laws

-- One statement of the service on the wallets.
pub data Statement : Type 0 where
  reserving releasing completing : ℕ → ℤ → Statement

abbrev pub amount_of : Statement → ℤ
amount_of (reserving i a) = a
amount_of (releasing i a) = a
amount_of (completing i a) = a

unfoldable pub execute : Statement → List Wallet → List Wallet
execute (reserving i a) ws = (reserve_balance i a ws).0
execute (releasing i a) ws = (release_reserve i a ws).0
execute (completing i a) ws = (complete_transfer_balance i a ws).0

unfoldable pub execute_all : List Statement → List Wallet → List Wallet
execute_all [] ws = ws
execute_all (s ∷ ss) ws = execute_all ss (execute s ws)

pub execute-IsSolvent :
    (s : Statement) (ws : List Wallet)
    → pos 0 ≤ℤ amount_of s
    → All IsSolvent ws
    → All IsSolvent (execute s ws)
unfolding execute reserve_balance release_reserve complete_transfer_balance
execute-IsSolvent (reserving i a) ws n h =
    All-update_where IsSolvent (can_reserve i a) (reserve a) (reserve-IsSolvent i a n) ws h
execute-IsSolvent (releasing i a) ws n h =
    All-update_where IsSolvent (can_release i a) (release a) (release-IsSolvent i a n) ws h
execute-IsSolvent (completing i a) ws n h =
    All-update_where IsSolvent (can_complete i a) (deduct a) (deduct-IsSolvent i a n) ws h

-- Whatever sequence of reservations, releases and completions runs, each for an amount that is
-- not negative, succeeding or not: every wallet that starts with its reserve between zero and
-- its balance ends so.
pub execute_all-IsSolvent :
    (ss : List Statement) (ws : List Wallet)
    → All (λ s. pos 0 ≤ℤ amount_of s) ss
    → All IsSolvent ws
    → All IsSolvent (execute_all ss ws)
unfolding execute_all
execute_all-IsSolvent [] ws n h = h
execute_all-IsSolvent (s ∷ ss) ws n h =
    execute_all-IsSolvent ss (execute s ws) n.1 (execute-IsSolvent s ws n.0 h)

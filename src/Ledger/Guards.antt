-- ===== src/Ledger/Guards.antt =====
-- The `WHERE` clauses of the wallets' money statements, read as facts.
use custody_service.Common.{ℕ, ◌≡◌, true, arith, ℤ, ◌≤ℤ◌, ◌-ℤ◌}
use custody_service.Models.{Wallet}
use custody_service.Ledger.{can_reserve, can_release, can_complete}

module _ (i : ℕ) (a : ℤ) (w : Wallet) where
  pub can_reserve-facts :
      can_reserve i a w ≡ true → (w.id ≡ i) × (a ≤ℤ w.balance -ℤ w.pending_amount)
  can_reserve-facts h = ground arith

  pub can_release-facts : can_release i a w ≡ true → (w.id ≡ i) × (a ≤ℤ w.pending_amount)
  can_release-facts h = ground arith

  pub can_complete-facts :
      can_complete i a w ≡ true → (w.id ≡ i) × (a ≤ℤ w.pending_amount) × (a ≤ℤ w.balance)
  can_complete-facts h = ground arith

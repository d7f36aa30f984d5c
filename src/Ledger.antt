-- ===== src/Ledger.antt =====
-- app/dao/transfer.py, the statements that move money on the wallets: `reserve_balance`,
-- `release_reserve`, `complete_transfer_balance`. Each is one `UPDATE … WHERE … RETURNING id`,
-- so it is a function of the table that returns the new table and whether a row was updated.
pub mod Guards
pub mod HotWallet
pub mod Effects
pub mod Solvency
use custody_service.Common.{ℕ, Bool, List, ◌&&◌, ◌==◌, any, update_where, ℤ, ◌+ℤ◌, ◌-ℤ◌, leb_ℤ}
use custody_service.Models.{Wallet, has_sufficient_balance}

-- `UPDATE wallets SET … WHERE … RETURNING id`
abbrev pub returning : (Wallet → Bool) → (Wallet → Wallet) → List Wallet → List Wallet × Bool
returning p f ws = (update_where p f ws, any p ws)

abbrev pub can_reserve : ℕ → ℤ → Wallet → Bool
can_reserve wallet_id amount w = w.id == wallet_id && has_sufficient_balance w amount

abbrev pub can_release : ℕ → ℤ → Wallet → Bool
can_release wallet_id amount w = w.id == wallet_id && leb_ℤ amount w.pending_amount

abbrev pub can_complete : ℕ → ℤ → Wallet → Bool
can_complete wallet_id amount w =
    w.id == wallet_id && (leb_ℤ amount w.pending_amount && leb_ℤ amount w.balance)

abbrev pub reserve : ℤ → Wallet → Wallet
reserve amount w = record w { pending_amount = w.pending_amount +ℤ amount }

abbrev pub release : ℤ → Wallet → Wallet
release amount w = record w { pending_amount = w.pending_amount -ℤ amount }

abbrev pub deduct : ℤ → Wallet → Wallet
deduct amount w = record w {
  pending_amount = w.pending_amount -ℤ amount;
  balance = w.balance -ℤ amount;
}

unfoldable pub reserve_balance : ℕ → ℤ → List Wallet → List Wallet × Bool
reserve_balance wallet_id amount = returning (can_reserve wallet_id amount) (reserve amount)

unfoldable pub release_reserve : ℕ → ℤ → List Wallet → List Wallet × Bool
release_reserve wallet_id amount = returning (can_release wallet_id amount) (release amount)

unfoldable pub complete_transfer_balance : ℕ → ℤ → List Wallet → List Wallet × Bool
complete_transfer_balance wallet_id amount =
    returning (can_complete wallet_id amount) (deduct amount)

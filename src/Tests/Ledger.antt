-- ===== src/Tests/Ledger.antt =====
-- The wallets' money statements on the two wallets.
use custody_service.Common.{
  map, ◌≡◌, refl, true, arith, List, [], ◌∷◌, none, ℤ, pos, ◌-ℤ◌, ◌+ℤ◌, leb_ℤ, ◌&&◌, All, IsKeyed,
  update_where,
}
use custody_service.Models.{Wallet}
use custody_service.Ledger.{
  reserve_balance, release_reserve, complete_transfer_balance, can_reserve,
}
use custody_service.Ledger.Solvency.{
  IsSolvent, Statement, reserving, releasing, completing, execute, execute_all,
  execute_all-IsSolvent,
}
use custody_service.Ledger.Effects.{
  Moves, id_of, row_passes, spend, statements-Moves, statements-success, release-reserve_balance,
  complete-reserve_balance,
}
use custody_service.Ledger.HotWallet.{select_and_reserve_hot_wallet}
use custody_service.Ledger.HotWallet.Reservation.{Outcome, select_and_reserve-Outcome}
use custody_service.Tests.Data.{db, wallets}

-- The second reservation is refused.
abbrev statements : List Statement
statements =
    reserving 10 (pos 60)
    ∷ reserving 10 (pos 1)
    ∷ completing 10 (pos 70)
    ∷ releasing 10 (pos 30)
    ∷ []

run_statements :
    map {B = ℤ × ℤ} (λ (w : Wallet). (w.balance, w.pending_amount)) (execute_all statements wallets)
    ≡ (pos 30, pos 0) ∷ (pos 500, pos 0) ∷ []
unfolding execute_all execute reserve_balance release_reserve complete_transfer_balance ◌+ℤ◌ ◌-ℤ◌
run_statements = refl

distinct : IsKeyed id_of wallets
distinct = ground arith

execute_all-IsSolvent_example : All IsSolvent (execute_all statements wallets)
execute_all-IsSolvent_example =
    execute_all-IsSolvent statements wallets (ground arith) (ground (arith))

statements-Moves_example :
    Moves wallets (reserve_balance 11 (pos 9) wallets) (pos 9) (pos 0)
    × Moves wallets (release_reserve 11 (pos 9) wallets) (pos 0 -ℤ pos 9) (pos 0)
    × Moves wallets (complete_transfer_balance 11 (pos 9) wallets) (pos 0 -ℤ pos 9) (pos 0 -ℤ pos 9)
statements-Moves_example = statements-Moves 11 (pos 9) wallets distinct

statements-success_example :
    ((reserve_balance 10 (pos 61) wallets).1
      ≡ row_passes 10 (λ w. leb_ℤ (pos 61) (w.balance -ℤ w.pending_amount)) wallets)
    × ((release_reserve 10 (pos 61) wallets).1
        ≡ row_passes 10 (λ w. leb_ℤ (pos 61) w.pending_amount) wallets)
    × ((complete_transfer_balance 10 (pos 61) wallets).1
        ≡ row_passes 10 (λ w. leb_ℤ (pos 61) w.pending_amount && leb_ℤ (pos 61) w.balance) wallets)
statements-success_example = statements-success 10 (pos 61) wallets distinct

release-reserve_balance_example :
    release_reserve 10 (pos 60) (reserve_balance 10 (pos 60) wallets).0 ≡ (wallets, true)
unfolding reserve_balance ◌+ℤ◌ ◌-ℤ◌
release-reserve_balance_example =
    release-reserve_balance 10 (pos 60) wallets distinct (ground arith) refl

complete-reserve_balance_example :
    complete_transfer_balance 10 (pos 60) (reserve_balance 10 (pos 60) wallets).0
    ≡ (update_where (can_reserve 10 (pos 60)) (spend (pos 60)) wallets, true)
unfolding reserve_balance ◌+ℤ◌ ◌-ℤ◌
complete-reserve_balance_example =
    complete-reserve_balance 10 (pos 60) wallets distinct (ground arith) refl

select_and_reserve-Outcome_example :
    Outcome db none "Ethereum" (pos 70) (select_and_reserve_hot_wallet db none "Ethereum" (pos 70))
select_and_reserve-Outcome_example = select_and_reserve-Outcome db none "Ethereum" (pos 70)

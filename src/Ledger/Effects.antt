-- ===== src/Ledger/Effects.antt =====
-- What each of the wallets' money statements does: when it succeeds, how the totals move, and that
-- a failed statement changes nothing.
use custody_service.Common.{
  ℕ, ◌≡◌, refl, Bool, true, false, arith, List, none, some, ◌==◌, ◌&&◌, ◌≢◌, [], ◌∷◌, ==_refl, ℤ,
  pos, ◌+ℤ◌, ◌-ℤ◌, ◌≤ℤ◌, int_laws, leb_ℤ, le→leb_ℤ, find, any, update_where, All, All-map,
  if◌then◌else◌, IsKeyed, total, total-update_where, update_where_none, update_where-twice,
  add_sub_cancel,
}
use custody_service.Models.{Wallet}
use custody_service.Ledger.{
  reserve_balance, release_reserve, complete_transfer_balance, can_reserve, can_release,
  can_complete, reserve, release, deduct, returning,
}
use custody_service.Ledger.Guards.{can_reserve-facts, can_release-facts, can_complete-facts}

abbrev pub id_of : Wallet → ℕ
id_of w = w.id

abbrev pub pending_of : Wallet → ℤ
pending_of w = w.pending_amount

abbrev pub balance_of : Wallet → ℤ
balance_of w = w.balance

-- Over the whole table, a statement moves the reserves by `reserves` and the balances by
-- `balances` if it reports success, and changes nothing otherwise.
pub record Moves (ws : List Wallet) (r : List Wallet × Bool) (reserves balances : ℤ) : Type 0 where
  pub reserved :
      total id_of pending_of r.0
      ≡ (if r.1 then total id_of pending_of ws +ℤ reserves else total id_of pending_of ws)
  pub held :
      total id_of balance_of r.0
      ≡ (if r.1 then total id_of balance_of ws +ℤ balances else total id_of balance_of ws)
  pub failed : r.1 ≡ false → r.0 ≡ ws

-- With wallet ids distinct, and for any amounts: a reservation that reports success raises the
-- sum of the reserves by its amount and leaves the sum of the balances; a release lowers the sum
-- of the reserves by its amount and leaves the sum of the balances; a completion lowers both sums
-- by its amount. A statement that reports failure leaves the table as it was.
pub statements-Moves :
    (i : ℕ) (a : ℤ) (ws : List Wallet)
    → IsKeyed id_of ws
    → Moves ws (reserve_balance i a ws) a (pos 0)
      × Moves ws (release_reserve i a ws) (pos 0 -ℤ a) (pos 0)
      × Moves ws (complete_transfer_balance i a ws) (pos 0 -ℤ a) (pos 0 -ℤ a)
unfolding reserve_balance release_reserve complete_transfer_balance
statements-Moves i a ws k = (
  moves (can_reserve i a) (reserve a) (λ w h. (can_reserve-facts i a w h).0) a (pos 0) (λ w. refl)
      (λ w. omega int_laws),
  moves (can_release i a) (release a) (λ w h. (can_release-facts i a w h).0) (pos 0 -ℤ a) (pos 0)
      (λ w. omega int_laws) (λ w. omega int_laws),
  moves (can_complete i a) (deduct a) (λ w h. (can_complete-facts i a w h).0) (pos 0 -ℤ a)
      (pos 0 -ℤ a) (λ w. omega int_laws) (λ w. omega int_laws),
)
  where
    moves :
        (p : Wallet → Bool) (f : Wallet → Wallet)
        → ((w : Wallet) → p w ≡ true → id_of w ≡ i)
        → (reserves balances : ℤ) → ((w : Wallet) → pending_of (f w) ≡ pending_of w +ℤ reserves)
        → ((w : Wallet) → balance_of (f w) ≡ balance_of w +ℤ balances)
        → Moves ws (returning p f ws) reserves balances
    moves p f at r b mr mb = record {
      reserved = total-update_where id_of pending_of r p f i at (λ w _. mr w) ws k;
      held = total-update_where id_of balance_of b p f i at (λ w _. mb w) ws k;
      failed = update_where_none p f ws;
    }

-- Whether a row with id `i` is found, and passes the rest of the `WHERE` clause.
abbrev pub row_passes : ℕ → (Wallet → Bool) → List Wallet → Bool
row_passes i test ws = elim (find (λ w. w.id == i) ws) [ none ↦ false | some w ↦ test w ]

quiet :
    (i : ℕ) (test : Wallet → Bool) (k : ℕ) (ws : List Wallet)
    → i ≡ k
    → All (λ v. k ≢ v.id) ws
    → any (λ v. v.id == i && test v) ws ≡ false
quiet i test k [] e h = refl
quiet i test k (v ∷ vs) e h = ground (arith, quiet i test k vs e h.1)

-- With distinct ids only the one row of the id is asked.
any-row_passes :
    (i : ℕ) (test : Wallet → Bool) (ws : List Wallet)
    → IsKeyed id_of ws
    → any (λ w. w.id == i && test w) ws ≡ row_passes i test ws
any-row_passes i test [] k = refl
any-row_passes i test (w ∷ ws) k =
    ground (arith, any-row_passes i test ws k.1, λ (e : i ≡ w.id). quiet i test w.id ws e k.0)

-- With wallet ids distinct, each statement reports success exactly if the wallet exists and: for
-- a reservation, its balance less its reserve is at least the amount; for a release, its reserve
-- is at least the amount; for a completion, its reserve and its balance both are.
pub statements-success :
    (i : ℕ) (a : ℤ) (ws : List Wallet)
    → IsKeyed id_of ws
    → ((reserve_balance i a ws).1 ≡ row_passes i (λ w. leb_ℤ a (w.balance -ℤ w.pending_amount)) ws)
      × ((release_reserve i a ws).1 ≡ row_passes i (λ w. leb_ℤ a w.pending_amount) ws)
      × ((complete_transfer_balance i a ws).1
          ≡ row_passes i (λ w. leb_ℤ a w.pending_amount && leb_ℤ a w.balance) ws)
unfolding reserve_balance release_reserve complete_transfer_balance
statements-success i a ws k = (
  any-row_passes i (λ w. leb_ℤ a (w.balance -ℤ w.pending_amount)) ws k,
  any-row_passes i (λ w. leb_ℤ a w.pending_amount) ws k,
  any-row_passes i (λ w. leb_ℤ a w.pending_amount && leb_ℤ a w.balance) ws k,
)

update_where-id : (p : Wallet → Bool) (ws : List Wallet) → update_where p (λ w. w) ws ≡ ws
update_where-id p [] = refl
update_where-id p (w ∷ ws) = ground (arith, update_where-id p ws)

release-reserve : (a : ℤ) (w : Wallet) → release a (reserve a w) ≡ w
release-reserve a w = rw add_sub_cancel

can_release-reserve :
    (i : ℕ) (a : ℤ) (w : Wallet)
    → pos 0 ≤ℤ w.pending_amount
    → can_reserve i a w ≡ true
    → can_release i a (reserve a w) ≡ true
can_release-reserve i a w n h =
    let (at, _) = can_reserve-facts i a w h in
    rw (at, ==_refl i) (le→leb_ℤ a (w.pending_amount +ℤ a) (omega int_laws))

-- With wallet ids distinct and no reserve negative, a release straight after a successful
-- reservation of the same amount on the same wallet succeeds and gives back the table as it was.
pub release-reserve_balance :
    (i : ℕ) (a : ℤ) (ws : List Wallet)
    → IsKeyed id_of ws
    → All (λ w. pos 0 ≤ℤ w.pending_amount) ws
    → (reserve_balance i a ws).1 ≡ true
    → release_reserve i a (reserve_balance i a ws).0 ≡ (ws, true)
unfolding reserve_balance release_reserve
release-reserve_balance i a ws k n found =
    let (back, again) =
      update_where-twice id_of (can_reserve i a) (can_release i a) (reserve a) (release a) (λ w. w)
        i (λ w h. (can_reserve-facts i a w h).0) (λ w h. (can_release-facts i a w h).0) (λ w. refl)
        ws
        (All-map (λ (w : Wallet). pos 0 ≤ℤ w.pending_amount)
          (λ w.
            can_reserve i a w ≡ true
            → (can_release i a (reserve a w) ≡ true) × (release a (reserve a w) ≡ w))
          (λ w m h. (can_release-reserve i a w m h, release-reserve a w)) ws n)
        k found in
    rw (back, again, update_where-id (can_reserve i a) ws) refl

-- What a paid-out wallet looks like.
abbrev pub spend : ℤ → Wallet → Wallet
spend a w = record w { balance = w.balance -ℤ a }

deduct-reserve : (a : ℤ) (w : Wallet) → deduct a (reserve a w) ≡ spend a w
deduct-reserve a w = rw add_sub_cancel

can_complete-reserve :
    (i : ℕ) (a : ℤ) (w : Wallet)
    → pos 0 ≤ℤ w.pending_amount
    → can_reserve i a w ≡ true
    → can_complete i a (reserve a w) ≡ true
can_complete-reserve i a w n h =
    let (at, fits) = can_reserve-facts i a w h in
    rw (
      at,
      ==_refl i,
      le→leb_ℤ a (w.pending_amount +ℤ a) (omega int_laws),
      le→leb_ℤ a w.balance (omega int_laws),
    )

-- With wallet ids distinct and no reserve negative, a completion straight after a successful
-- reservation of the same amount on the same wallet succeeds: that wallet's balance has fallen
-- by the amount, its reserve and every other wallet are as before the reservation.
pub complete-reserve_balance :
    (i : ℕ) (a : ℤ) (ws : List Wallet)
    → IsKeyed id_of ws
    → All (λ w. pos 0 ≤ℤ w.pending_amount) ws
    → (reserve_balance i a ws).1 ≡ true
    → complete_transfer_balance i a (reserve_balance i a ws).0
      ≡ (update_where (can_reserve i a) (spend a) ws, true)
unfolding reserve_balance complete_transfer_balance
complete-reserve_balance i a ws k n found =
    let (back, again) =
      update_where-twice id_of (can_reserve i a) (can_complete i a) (reserve a) (deduct a) (spend a)
        i (λ w h. (can_reserve-facts i a w h).0) (λ w h. (can_complete-facts i a w h).0) (λ w. refl)
        ws
        (All-map (λ (w : Wallet). pos 0 ≤ℤ w.pending_amount)
          (λ w.
            can_reserve i a w ≡ true
            → (can_complete i a (reserve a w) ≡ true) × (deduct a (reserve a w) ≡ spend a w))
          (λ w m h. (can_complete-reserve i a w m h, deduct-reserve a w)) ws n)
        k found in
    rw (back, again) refl

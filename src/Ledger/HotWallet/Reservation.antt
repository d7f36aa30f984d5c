-- ===== src/Ledger/HotWallet/Reservation.antt =====
-- What `select_and_reserve_hot_wallet` returns and does, on each of its three outcomes.
use custody_service.Common.{
  ℕ, String, ◌≡◌, ◌≢◌, refl, sym, ap, ◌∙◌, ==_refl, true, false, arith, List, [], ◌∷◌, Option, none,
  some, inl, inr, ℤ, All, In, any, update_where,
}
use custody_service.Models.{Db, Wallet, get_vault, get_asset}
use custody_service.Ledger.{reserve_balance, can_reserve, reserve}
use custody_service.Ledger.HotWallet.{
  Row, Selection, selected, short, no_hot_wallet, insufficient_balance, hot_rows, can_pay,
  comes_before, reserve_row, select_and_reserve_hot_wallet, choose_hot_row, join_row, join_rows,
  is_candidate, settle, cons_some,
}
use custody_service.Ledger.HotWallet.Choice.{
  first_row-IsFirst, first_row-none, In-select, All-select, select-none,
}

-- A row joins a wallet of the table with its vault and its asset.
pub record IsJoined (db : Db) (ws : List Wallet) (r : Row) : Type 0 where
  pub wallet : In r.wallet ws
  pub vault : get_vault db r.wallet.vault_id ≡ some r.vault
  pub asset : get_asset db r.wallet.asset_id ≡ some r.asset

join_row-fields :
    (db : Db) (w : Wallet) (r : Row)
    → join_row db w ≡ some r
    → (r.wallet ≡ w)
      × (get_vault db w.vault_id ≡ some r.vault)
      × (get_asset db w.asset_id ≡ some r.asset)
unfolding join_row
join_row-fields db w r h = ground arith

join_rows-IsJoined :
    (db : Db) (ws : List Wallet) (r : Row) → In r (join_rows db ws) → IsJoined db ws r
unfolding join_rows
join_rows-IsJoined db [] r i = elim i [ ]
join_rows-IsJoined db (w ∷ ws) r i = go (join_row db w) refl (join_rows-IsJoined db ws r) i
  where
    later : IsJoined db ws r → IsJoined db (w ∷ ws) r
    later j = record { wallet = inr j.wallet; vault = j.vault; asset = j.asset }

    go :
        (o : Option Row)
        → join_row db w ≡ o
        → (In r (join_rows db ws) → IsJoined db ws r)
        → In r (cons_some o (join_rows db ws))
        → IsJoined db (w ∷ ws) r
    go none e ih j = later (ih j)
    go (some s) e ih (inr j) = later (ih j)
    go (some s) e ih (inl same) =
        let (a, b, c) = join_row-fields db w r (e ∙ ap some (sym same)) in
        record { wallet = inl a; vault = rw a b; asset = rw a c }

In-any :
    (i : ℕ) (amount : ℤ) (w : Wallet) (ws : List Wallet)
    → In w ws
    → can_reserve i amount w ≡ true
    → any (can_reserve i amount) ws ≡ true
In-any i amount w [] j h = elim j [ ]
In-any i amount w (v ∷ ws) (inl e) h = rw (← e, h)
In-any i amount w (v ∷ ws) (inr j) h = ground (arith, In-any i amount w ws j h)

module _ (db : Db) (contract_address : Option String) (blockchain : String) (amount : ℤ) where
  -- The rows that the queries see.
  abbrev pub seen : List Row
  seen = hot_rows db contract_address blockchain

  -- `r` can pay, and no row that can pay comes before it.
  pub record IsBest (r : Row) : Type 0 where
    pub listed : In r seen
    pub pays : can_pay amount r ≡ true
    pub first : All (λ s. can_pay amount s ≡ true → comes_before s r ≡ false) seen

  choose_hot_row-IsBest :
      (r : Row) → choose_hot_row db contract_address blockchain amount ≡ some r → IsBest r
  unfolding choose_hot_row
  choose_hot_row-IsBest r h =
      let (i, f) = first_row-IsFirst _ r h in
      let (listed, pays) = In-select (can_pay amount) r seen i in
      record {
        listed = listed;
        pays = pays;
        first = All-select (can_pay amount) (λ s. comes_before s r ≡ false) seen f;
      }

  -- What has happened, by the outcome.
  abbrev pub Outcome : Selection → Type 0
  Outcome (selected r ws) =
      (best : Row) × IsBest best
      × (r ≡ reserve_row amount best)
      × (reserve_balance best.wallet.id amount db.wallets ≡ (ws, true))
  Outcome (short no_hot_wallet) = seen ≡ []
  Outcome (short insufficient_balance) = (seen ≢ []) × All (λ r. can_pay amount r ≡ false) seen

  -- The table after a selection is that of `reserve_balance` for the selected wallet.
  pub selected-reserve_balance :
      (r : Row) (ws : List Wallet)
      → Outcome (selected r ws)
      → ws ≡ (reserve_balance r.wallet.id amount db.wallets).0
  unfolding reserve_row
  selected-reserve_balance r ws (best, _, same, e) =
      ap (λ z. z.0) (sym e)
      ∙ ap (λ (x : Row). (reserve_balance x.wallet.id amount db.wallets).0) (sym same)

  paid : (r : Row) → IsBest r → (reserve_balance r.wallet.id amount db.wallets).1 ≡ true
  unfolding reserve_balance hot_rows can_pay
  paid r b =
      let (joined, _) = In-select (is_candidate contract_address blockchain) r _ b.listed in
      In-any r.wallet.id amount r.wallet db.wallets
        (join_rows-IsJoined db db.wallets r joined).wallet (rw (==_refl r.wallet.id) b.pays)

  none_pays :
      choose_hot_row db contract_address blockchain amount ≡ none
      → All (λ r. can_pay amount r ≡ false) seen
  unfolding choose_hot_row
  none_pays h = select-none (can_pay amount) seen (first_row-none _ h)

  -- A selected row is that of a HOT wallet which the queries see and which can pay, before which
  -- none that can pay comes (a primary vault first, then the larger available balance); the new
  -- table is that of a successful reservation of the amount on this wallet. The shortage
  -- `no_hot_wallet` means that the queries see no row, `insufficient_balance` that they see rows
  -- and none can pay.
  pub select_and_reserve-Outcome :
      Outcome (select_and_reserve_hot_wallet db contract_address blockchain amount)
  unfolding select_and_reserve_hot_wallet reserve_balance
  select_and_reserve-Outcome =
      go (choose_hot_row db contract_address blockchain amount) refl seen refl
    where
      go :
          (o : Option Row)
          → choose_hot_row db contract_address blockchain amount ≡ o
          → (rs : List Row) → seen ≡ rs
          → Outcome (settle amount db.wallets o rs)
      go none e [] s = s
      go none e (r ∷ rs) s = (λ z. cc (s, z), none_pays e)
      go (some r) e rs s =
          let best = choose_hot_row-IsBest r e in
          (
            r,
            best,
            refl,
            ap (λ b. (update_where (can_reserve r.wallet.id amount) (reserve amount) db.wallets, b))
                (paid r best),
          )

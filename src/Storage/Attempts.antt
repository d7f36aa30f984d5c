-- ===== src/Storage/Attempts.antt =====
-- How often the database is tried, and that its sessions are closed.
use custody_service.Common.{
  subst, sym, if◌then◌else◌, ℕ, suc, ◌+◌, ◌≤◌, ◌≡◌, refl, true, false, Bool, Option, none, some,
  List, [], ◌∷◌, ◌++◌, arith,
}
use custody_service.Storage.Counts.{opens, closes, refreshes, waited, adds}
use custody_service.Storage.{
  DbError, _should_force_refresh_from_vault, Step, opened, closed, rolled_back, slept, Ending,
  ready, failed, Run, attempts, connect, after_body, get_db, get_db_local, doing, refresh_if,
  caught, tried, then_use,
}

-- The exceptions of the attempts are among those that the loop catches.
abbrev pub IsCaught : (ℕ → Option DbError) → Type 0
IsCaught ping = (n : ℕ) → (e : DbError) → ping n ≡ some e → e.is_connection ≡ true

-- A use of the database: at most three sessions, each of them closed, at most three requests for new
-- credentials, and at most 3.1 seconds of sleep.
pub record IsBounded (r : Run) : Type 0 where
  pub few_opens : opens r.steps ≤ 3
  pub all_closed : closes r.steps ≡ opens r.steps
  pub few_refreshes : refreshes r.steps ≤ 3
  pub short_wait : waited r.steps ≤ 31

-- A session that is ready is still open.
abbrev held : Ending → ℕ
held ready = 1
held (failed e) = 0

-- The same for a loop that is under way, with bounds of its own.
record IsTried (o f w : ℕ) (r : Run) : Type 0 where
  pub few_opens : opens r.steps ≤ o
  pub all_held : closes r.steps + held r.ending ≡ opens r.steps
  pub few_refreshes : refreshes r.steps ≤ f
  pub short_wait : waited r.steps ≤ w

module _ (o f w : ℕ) where
  retry-IsTried :
      (b : Bool) (n : ℕ) (again : Run)
      → IsTried o f w again
      → IsTried
          (suc o)
          (suc f)
          (n + w)
          (doing (opened ∷ []) (doing (closed ∷ refresh_if b ++ slept n ∷ []) again))
  unfolding opens closes refreshes waited
  retry-IsTried true n again h = record {
    few_opens = omega (arith, h.few_opens);
    all_held = omega (arith, h.all_held);
    few_refreshes = omega (arith, h.few_refreshes);
    short_wait = omega (arith, h.short_wait);
  }
  retry-IsTried false n again h = record {
    few_opens = omega (arith, h.few_opens);
    all_held = omega (arith, h.all_held);
    few_refreshes = omega (arith, h.few_refreshes);
    short_wait = omega (arith, h.short_wait);
  }

  ready-IsTried : IsTried (suc o) f w (record { steps = opened ∷ []; ending = ready })
  unfolding opens closes refreshes waited
  ready-IsTried = record {
    few_opens = omega arith;
    all_held = refl;
    few_refreshes = omega arith;
    short_wait = omega arith;
  }

last-IsTried :
    (e : DbError) → IsTried 1 0 0 (record { steps = opened ∷ closed ∷ []; ending = failed e })
unfolding opens closes refreshes waited
last-IsTried e = record {
  few_opens = omega arith;
  all_held = refl;
  few_refreshes = omega arith;
  short_wait = omega arith;
}

module _ (is_local : Bool) (ping : ℕ → Option DbError) (k : IsCaught ping) where
  -- An exception that is caught takes the first branch.
  in_branch :
      (P : Run → Type 0) (e : DbError) (n : ℕ) (again : Run)
      → ping n ≡ some e
      → P (doing (opened ∷ []) (caught is_local n e again))
      → P (doing (opened ∷ []) (tried is_local n (some e) again))
  in_branch P e n again h =
      subst
        (λ (b : Bool). P (
          doing (opened ∷ [])
            (if b then caught is_local n e again else record { steps = []; ending = failed e })))
        (sym (k n e h))

  third :
      (r : Option DbError) (again : Run)
      → ping 2 ≡ r
      → IsTried 1 0 0 (doing (opened ∷ []) (tried is_local 2 r again))
  third none again h = ready-IsTried 0 0 0
  third (some e) again h = in_branch (IsTried 1 0 0) e 2 again h (last-IsTried e)

  second :
      (r : Option DbError) (again : Run)
      → ping 1 ≡ r
      → IsTried 1 0 0 again
      → IsTried 2 1 21 (doing (opened ∷ []) (tried is_local 1 r again))
  second none again h i = ready-IsTried 1 1 21
  second (some e) again h i =
      in_branch (IsTried 2 1 21) e 1 again h
        (retry-IsTried 1 0 0 (_should_force_refresh_from_vault is_local e) 21 again i)

  first :
      (r : Option DbError) (again : Run)
      → ping 0 ≡ r
      → IsTried 2 1 21 again
      → IsTried 3 2 31 (doing (opened ∷ []) (tried is_local 0 r again))
  first none again h i = ready-IsTried 2 2 31
  first (some e) again h i =
      in_branch (IsTried 3 2 31) e 0 again h
        (retry-IsTried 2 1 21 (_should_force_refresh_from_vault is_local e) 10 again i)

  connect-IsTried : IsTried 3 2 31 (connect is_local ping)
  unfolding connect attempts
  connect-IsTried = first (ping 0) _ refl (second (ping 1) _ refl (third (ping 2) _ refl))

-- What is done with an open session: it is closed once, and nothing is opened.
record IsUse (r : Run) : Type 0 where
  pub no_opens : opens r.steps ≡ 0
  pub one_close : closes r.steps ≡ 1
  pub few_refreshes : refreshes r.steps ≤ 1
  pub no_wait : waited r.steps ≡ 0

used-IsBounded :
    (steps : List Step) (ending : Ending) (inside : Run)
    → IsTried 3 2 31 (record { steps = steps; ending = ending })
    → IsUse inside
    → IsBounded (then_use (record { steps = steps; ending = ending }) inside)
used-IsBounded steps ready inside h u =
    let a = adds steps inside.steps in
    record {
      few_opens = omega (arith, a.opens_add, h.few_opens, u.no_opens);
      all_closed = omega (arith, a.opens_add, a.closes_add, h.all_held, u.no_opens, u.one_close);
      few_refreshes = omega (arith, a.refreshes_add, h.few_refreshes, u.few_refreshes);
      short_wait = omega (arith, a.waited_add, h.short_wait, u.no_wait);
    }
used-IsBounded steps (failed e) inside h u = record {
  few_opens = h.few_opens;
  all_closed = omega (arith, h.all_held);
  few_refreshes = omega (arith, h.few_refreshes);
  short_wait = h.short_wait;
}

rolled_back-IsUse :
    (b : Bool) (e : DbError)
    → IsUse (record { steps = (rolled_back ∷ refresh_if b) ++ closed ∷ []; ending = failed e })
unfolding opens closes refreshes waited
rolled_back-IsUse true e = record {
  no_opens = refl;
  one_close = refl;
  few_refreshes = omega arith;
  no_wait = refl;
}
rolled_back-IsUse false e = record {
  no_opens = refl;
  one_close = refl;
  few_refreshes = omega arith;
  no_wait = refl;
}

after_body-IsUse : (is_local : Bool) (raised : Option DbError) → IsUse (after_body is_local raised)
unfolding after_body opens closes refreshes waited
after_body-IsUse is_local none = record {
  no_opens = refl;
  one_close = refl;
  few_refreshes = omega arith;
  no_wait = refl;
}
after_body-IsUse is_local (some e) =
    rolled_back-IsUse (_should_force_refresh_from_vault is_local e) e

-- For every sequence of failures of the connection among those that the loop catches, and for every
-- exception of the body: `get_db` and `get_db_local` open at most three sessions and close each of
-- them, ask for new credentials at most three times, and sleep for at most 3.1 seconds.
pub get_db-IsBounded :
    (is_local : Bool) (ping : ℕ → Option DbError) (raised : Option DbError)
    → IsCaught ping
    → IsBounded (get_db is_local ping) × IsBounded (get_db_local is_local ping raised)
unfolding get_db get_db_local after_body
get_db-IsBounded is_local ping raised k =
    let t = connect-IsTried is_local ping k in
    (
      used-IsBounded _ _ _ t (after_body-IsUse is_local none),
      used-IsBounded _ _ _ t (after_body-IsUse is_local raised),
    )

-- ===== src/Storage/Counts.antt =====
-- How often a run of the database manager takes each of its steps.
use custody_service.Common.{ℕ, suc, ◌+◌, ◌≡◌, List, [], ◌∷◌, ◌++◌, arith}
use custody_service.Storage.{Step, opened, closed, rolled_back, refreshed, slept}

-- How often each step was taken, and for how long it slept.
unfoldable pub opens : List Step → ℕ
opens [] = 0
opens (opened ∷ ss) = suc (opens ss)
opens (s ∷ ss) = opens ss

unfoldable pub closes : List Step → ℕ
closes [] = 0
closes (closed ∷ ss) = suc (closes ss)
closes (s ∷ ss) = closes ss

unfoldable pub refreshes : List Step → ℕ
refreshes [] = 0
refreshes (refreshed ∷ ss) = suc (refreshes ss)
refreshes (s ∷ ss) = refreshes ss

unfoldable pub waited : List Step → ℕ
waited [] = 0
waited (slept n ∷ ss) = n + waited ss
waited (s ∷ ss) = waited ss

-- The counts of steps that follow each other add up.
pub record Adds (xs ys : List Step) : Type 0 where
  pub opens_add : opens (xs ++ ys) ≡ opens xs + opens ys
  pub closes_add : closes (xs ++ ys) ≡ closes xs + closes ys
  pub refreshes_add : refreshes (xs ++ ys) ≡ refreshes xs + refreshes ys
  pub waited_add : waited (xs ++ ys) ≡ waited xs + waited ys

pub adds : (xs ys : List Step) → Adds xs ys
unfolding opens closes refreshes waited
adds [] ys = record {
  opens_add = omega arith;
  closes_add = omega arith;
  refreshes_add = omega arith;
  waited_add = omega arith;
}
adds (opened ∷ xs) ys =
    let a = adds xs ys in
    record {
      opens_add = omega (arith, a.opens_add);
      closes_add = omega (arith, a.closes_add);
      refreshes_add = omega (arith, a.refreshes_add);
      waited_add = omega (arith, a.waited_add);
    }
adds (closed ∷ xs) ys =
    let a = adds xs ys in
    record {
      opens_add = omega (arith, a.opens_add);
      closes_add = omega (arith, a.closes_add);
      refreshes_add = omega (arith, a.refreshes_add);
      waited_add = omega (arith, a.waited_add);
    }
adds (rolled_back ∷ xs) ys =
    let a = adds xs ys in
    record {
      opens_add = omega (arith, a.opens_add);
      closes_add = omega (arith, a.closes_add);
      refreshes_add = omega (arith, a.refreshes_add);
      waited_add = omega (arith, a.waited_add);
    }
adds (refreshed ∷ xs) ys =
    let a = adds xs ys in
    record {
      opens_add = omega (arith, a.opens_add);
      closes_add = omega (arith, a.closes_add);
      refreshes_add = omega (arith, a.refreshes_add);
      waited_add = omega (arith, a.waited_add);
    }
adds (slept n ∷ xs) ys =
    let a = adds xs ys in
    record {
      opens_add = omega (arith, a.opens_add);
      closes_add = omega (arith, a.closes_add);
      refreshes_add = omega (arith, a.refreshes_add);
      waited_add = omega (arith, a.waited_add);
    }

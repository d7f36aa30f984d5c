-- ===== src/Fireblocks/Paging/Termination.antt =====
-- `get_vaults` ends.
use custody_service.Common.{
  ℕ, zero, suc, ◌≤◌, ◌<◌, String, ◌≡◌, refl, true, false, Bool-cases, Option-cases, inl, inr,
  Option, some, List, [], ◌∷◌, ◌++◌, In, length, text_eq, text_eq_iff, text_eq_refl, is_some, arith,
  if◌then◌else◌,
}
use custody_service.Custody.{ProviderVault}
use custody_service.Fireblocks.Paging.{
  Client, Page, page, other, failed, Reply, next_url_of, next_path_of, first_path, after_reply,
  is_seen, pages, get_vaults,
}

-- How many of the paths were not requested yet.
unfoldable pub unseen : List String → List String → ℕ
unseen [] seen = 0
unseen (p ∷ ps) seen = let rest = unseen ps seen in if is_seen p seen then rest else suc rest

unseen-more : (ps seen : List String) (x : String) → unseen ps (x ∷ seen) ≤ unseen ps seen
unfolding unseen is_seen
unseen-more [] seen x = omega arith
unseen-more (p ∷ ps) seen x =
    let rest = unseen-more ps seen x in
    elim (Bool-cases (text_eq x p)) [
      | inl e ↦ ground (arith, e, rest)
      | inr e ↦ ground (arith, e, rest)
    ]

-- A path that is requested for the first time is not counted any more.
unseen-new :
    (ps seen : List String) (x : String)
    → In x ps
    → is_seen x seen ≡ false
    → suc (unseen ps (x ∷ seen)) ≤ unseen ps seen
unfolding unseen is_seen
unseen-new [] seen x i e = elim i [ ]
unseen-new (p ∷ ps) seen x (inl same) e =
    let rest = unseen-more ps seen x in
    let here = text_eq_refl x in rw (← same, here, e) (omega (arith, rest))
unseen-new (p ∷ ps) seen x (inr i) e =
    let rest = unseen-new ps seen x i e in
    elim (Bool-cases (text_eq x p)) [
      | inl f ↦ ground (arith, f, rest, (text_eq_iff x p).0 f, e)
      | inr f ↦ ground (arith, f, rest)
    ]

unseen-length : (ps : List String) → unseen ps [] ≤ length ps
unfolding unseen is_seen
unseen-length [] = omega arith
unseen-length (p ∷ ps) = let rest = unseen-length ps in omega (arith, rest)

-- The paths that the client is led to are among some finite ones.
pub record IsFinite (c : Client) (prefix : Option String) (paths : List String) : Type 0 where
  pub first : In (first_path c prefix) paths
  pub next :
      (path following : String) (p : Page)
      → c.request path ≡ page p
      → next_path_of c (next_url_of c prefix p) ≡ some following
      → In following paths

module _ (c : Client) (prefix : Option String) (paths : List String)
    (h : IsFinite c prefix paths) where
  pages-end :
      (fuel : ℕ) (seen : List String) (path : String) (accounts : List ProviderVault)
      → In path paths
      → unseen paths seen < fuel
      → is_some (pages c prefix fuel seen path accounts) ≡ true
  unfolding pages
  pages-end zero seen path accounts i k = absurd (omega (arith, k))
  pages-end (suc fuel) seen path accounts i k = elim (Bool-cases (is_seen path seen)) [
    | inl e ↦ rw e refl
    | inr e ↦ rw e (go e (λ q xs j. pages-end fuel (path ∷ seen) q xs j) (c.request path) refl)
  ]
    where
      go :
          is_seen path seen ≡ false
          → ((q : String)
              → (xs : List ProviderVault) → In q paths
              → unseen paths (path ∷ seen) < fuel
              → is_some (pages c prefix fuel (path ∷ seen) q xs) ≡ true)
          → (r : Reply) → c.request path ≡ r
          → is_some (after_reply c prefix (pages c prefix fuel (path ∷ seen)) accounts r) ≡ true
      go e ends failed f = refl
      go e ends other f = refl
      go e ends (page p) f =
          let fewer = unseen-new paths seen path i e in
          elim (Option-cases (next_path_of c (next_url_of c prefix p))) [
            | inl g ↦ rw g refl
            | inr (q, g) ↦
                rw g
                  (ends q (accounts ++ p.accounts) (h.next path q p f g) (omega (arith, fewer, k)))
          ]

-- Whatever the provider answers, page after page, if the paths that it leads to are among finitely
-- many: with fuel above their number the listing ends, in a list of vaults or in an exception, since
-- no path is requested twice.
pub get_vaults-ends :
    (c : Client) (prefix : Option String) (paths : List String) (fuel : ℕ)
    → IsFinite c prefix paths
    → length paths < fuel
    → is_some (get_vaults c fuel prefix) ≡ true
unfolding get_vaults
get_vaults-ends c prefix paths fuel h k =
    let few = unseen-length paths in
    pages-end c prefix paths h fuel [] (first_path c prefix) [] h.first (omega (arith, few, k))

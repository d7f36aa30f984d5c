-- ===== src/Fireblocks/Resolver/Refinement.antt =====
-- The resolver with its cache against the resolver without one.
use custody_service.Common.{
  String, ◌≡◌, refl, sym, ◌∙◌, ap, subst, Bool, Bool-cases, Option-cases, inl, inr, Option, none,
  some, List, [], ◌∷◌, map, All, All-map, In, find, find-test, text_eq, text_eq_iff, arith,
}
use custody_service.Fireblocks.Assets.{FbAsset}
use custody_service.Fireblocks.Resolver.{
  Resolver, empty_resolver, Call, resolve, resolve_by_contract, resolve_native, key_of_call,
  look_up, entry, missed, run_call, run_calls, ensured, remembered, keeps,
}

-- The specification: no cache, every call asks the provider.
abbrev pub uncached : List FbAsset → Call → Option String
uncached supported c = look_up supported supported c

All-found :
    {A : Type 0} (P : A → Type 0) (p : A → Bool) (xs : List A) (x : A)
    → find p xs ≡ some x
    → All P xs
    → P x
All-found P p [] x e h = cc
All-found P p (y ∷ ys) x e h = elim (Bool-cases (p y)) [
  | inl t ↦ let same : y ≡ x = ground (arith, t, e) in subst P same h.0
  | inr t ↦ All-found P p ys x (ground (arith, t, e)) h.1
]

module _ (supported : List FbAsset) where
  -- An entry is the answer to some call with its key, among those that `P` admits.
  record IsAnswer (P : Call → Type 0) (e : String × String) : Type 0 where
    pub call : Call
    pub admitted : P call
    pub key : key_of_call call ≡ e.0
    pub answer : uncached supported call ≡ some e.1

  abbrev KeepsList : Option (List FbAsset) → Type 0
  KeepsList none = Unit
  KeepsList (some kept) = kept ≡ supported

  record IsSound (P : Call → Type 0) (r : Resolver) : Type 0 where
    pub entries : All (IsAnswer P) r.cache
    pub list : KeepsList r.fb_assets

  -- Calls with one key have one answer.
  abbrev pub Agree : Call → Call → Type 0
  Agree c d = key_of_call c ≡ key_of_call d → uncached supported c ≡ uncached supported d

  ensured-list : (o : Option (List FbAsset)) → KeepsList o → ensured supported o ≡ supported
  ensured-list none k = refl
  ensured-list (some kept) k = k

  module _ (P : Call → Type 0) where
    remembered-All :
        (key : String) (o : Option String) (cache : List (String × String))
        → ((i : String) → o ≡ some i → IsAnswer P (key, i))
        → All (IsAnswer P) cache
        → All (IsAnswer P) (remembered key o cache)
    remembered-All key none cache f h = h
    remembered-All key (some i) cache f h = (f i refl, h)

    keeps-list :
        (c : Call) (o : Option (List FbAsset)) → KeepsList o → KeepsList (keeps supported c o)
    keeps-list (resolve a) o k = k
    keeps-list (resolve_by_contract s b t) o k = ensured-list o k
    keeps-list (resolve_native s b t) o k = k

    missed-IsSound :
        (c : Call) (r : Resolver) → P c → IsSound P r → IsSound P (missed supported c r).1
    missed-IsSound c r p h = record {
      entries =
          remembered-All (key_of_call c) (look_up supported (ensured supported r.fb_assets) c)
            r.cache
            (λ i e. record {
              call = c;
              admitted = p;
              key = refl;
              answer = sym (ap (λ l. look_up supported l c) (ensured-list r.fb_assets h.list)) ∙ e;
            })
            h.entries;
      list = keeps-list c r.fb_assets h.list;
    }

    -- A call whose key is answered as its own calls are, is answered as without the cache, and the
    -- resolver stays sound.
    run_call-refines :
        (c : Call) (r : Resolver)
        → P c
        → ((d : Call) → P d → Agree d c)
        → IsSound P r
        → ((run_call supported c r).0 ≡ uncached supported c) × IsSound P (run_call supported c r).1
    unfolding run_call
    run_call-refines c r p agree h = elim (Option-cases (entry (key_of_call c) r.cache)) [
      | inl e ↦ rw e (
        ap (λ l. look_up supported l c) (ensured-list r.fb_assets h.list),
        missed-IsSound c r p h,
      )
      | inr (x, e) ↦
          let a =
            All-found (IsAnswer P) (λ (y : String × String). text_eq y.0 (key_of_call c)) r.cache x
              e h.entries in
          let named =
            (text_eq_iff x.0 (key_of_call c)).0
              (find-test (λ (y : String × String). text_eq y.0 (key_of_call c)) r.cache e) in
          rw e (sym (sym (agree a.call a.admitted (a.key ∙ named)) ∙ a.answer), h)
    ]

-- The calls have answers of their own: of two with one key, both have the same answer.
abbrev pub IsDetermined : List FbAsset → List Call → Type 0
IsDetermined supported cs = All (λ c. All (λ d. Agree supported d c) cs) cs

All-In : {A : Type 0} (P : A → Type 0) (xs : List A) (x : A) → All P xs → In x xs → P x
All-In P [] x h i = elim i [ ]
All-In P (y ∷ ys) x h (inl e) = subst P (sym e) h.0
All-In P (y ∷ ys) x h (inr i) = All-In P ys x h.1 i

In-All : {A : Type 0} (xs : List A) → All (λ x. In x xs) xs
In-All [] = tt
In-All (x ∷ xs) =
    (inl refl, All-map (λ y. In y xs) (λ y. In y (x ∷ xs)) (λ y i. inr i) xs (In-All xs))

module _ (supported : List FbAsset) (all_calls : List Call)
    (h : IsDetermined supported all_calls) where
  agreeing : (c d : Call) → In c all_calls → In d all_calls → Agree supported d c
  agreeing c d i j =
      All-In (λ x. Agree supported x c) all_calls d
        (All-In (λ x. All (λ y. Agree supported y x) all_calls) all_calls c h i) j

  run_rest :
      (cs : List Call) (r : Resolver)
      → All (λ c. In c all_calls) cs
      → IsSound supported (λ c. In c all_calls) r
      → run_calls supported cs r ≡ map (uncached supported) cs
  unfolding run_calls
  run_rest [] r k s = refl
  run_rest (c ∷ cs) r k s =
      let (same, sound) =
        run_call-refines supported (λ d. In d all_calls) c r k.0 (λ d j. agreeing c d k.0 j) s in
      rw (same, run_rest cs (run_call supported c r).1 k.1 sound) refl

-- The resolver with its cache implements the one without: for every sequence of calls of its three
-- methods on a new resolver, while the provider lists the same assets, the answers are those of
-- fresh searches, if any two of the calls that share a cache key have the same fresh answer.
pub run_calls-refines :
    (supported : List FbAsset) (cs : List Call)
    → IsDetermined supported cs
    → run_calls supported cs empty_resolver ≡ map (uncached supported) cs
run_calls-refines supported cs h =
    run_rest supported cs h cs empty_resolver (In-All cs) (record { entries = tt; list = tt })

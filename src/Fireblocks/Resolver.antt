-- ===== src/Fireblocks/Resolver.antt =====
-- app/services/custody/fireblocks/resolver.py, `FireblocksAssetResolver`: the Fireblocks id of an
-- asset, with a cache that saves calls of the provider.
pub mod Refinement
use custody_service.Common.{
  String, Bool, true, false, ◌&&◌, ◌||◌, Option, none, some, List, [], ◌∷◌, find, text_eq,
  append_text, is_filled, is_some, upper, codes_eq, codes, if◌then◌else◌,
}
use custody_service.Models.{Asset}
use custody_service.Fireblocks.Assets.{FbAsset}
use custody_service.Fireblocks.Natives.{Native, native_of, mapping_native_tokens}
use custody_service.Fireblocks.Search.{
  FoundAsset, is_asset_testnet, find_asset_by_contract_or_currency,
}

-- `_cache`, newest entry first, and `_fb_assets`.
pub record Resolver : Type 0 where
  pub cache : List (String × String)
  pub fb_assets : Option (List FbAsset)

-- `__init__` and `clear_cache`
abbrev pub empty_resolver : Resolver
empty_resolver = record { cache = []; fb_assets = none }

abbrev or_word : Option String → String → String
or_word none d = d
or_word (some s) d = if text_eq s "" then d else s

abbrev joined : String → String → String → String
joined a b c = append_text a (append_text ":" (append_text b (append_text ":" c)))

-- `_make_cache_key`
abbrev pub _make_cache_key : Asset → String
_make_cache_key a =
    joined a.blockchain (or_word a.contract_address "NATIVE") (or_word a.testnet "MAINNET")

abbrev net_name : Bool → String
net_name true = "TESTNET"
net_name false = "MAINNET"

-- A call of one of the three methods, with its arguments.
pub data Call : Type 0 where
  resolve : Asset → Call
  resolve_by_contract : String → String → Bool → Call
  resolve_native : String → String → Bool → Call

unfoldable pub key_of_call : Call → String
key_of_call (resolve a) = _make_cache_key a
key_of_call (resolve_by_contract contract blockchain t) = joined blockchain contract (net_name t)
key_of_call (resolve_native blockchain symbol t) = joined blockchain "NATIVE" (net_name t)

abbrev found_id : Option FoundAsset → Option String
found_id none = none
found_id (some f) = some f.asset.id

-- `contract_lower in [fb_contract.lower(), fb_issuer.lower()]`, a missing one being empty.
abbrev lists_contract : String → FbAsset → Bool
lists_contract contract a =
    codes_eq (upper contract) (upper (or_word a.contract_address ""))
    || codes_eq (upper contract) (upper (or_word a.issuer_address ""))

abbrev same_net : Bool → Bool → Bool
same_net true t = t
same_net false t = if t then false else true

abbrev id_in : Option FbAsset → Option String
id_in none = none
id_in (some a) = some a.id

unfoldable pub id_of_contract : List FbAsset → String → Bool → Option String
unfolding is_asset_testnet
id_of_contract assets contract t =
    id_in (find (λ a. lists_contract contract a && same_net (is_asset_testnet a) t) assets)

-- `if native_map: … if fb_id: …`
abbrev mapped_id : Option Native → Option String
mapped_id none = none
mapped_id (some n) = if text_eq n.asset_id "" then none else some n.asset_id

abbrev id_or : Option String → Option String → Option String
id_or none y = y
id_or (some x) y = some x

-- The answer of a method that does not find its key in the cache; `supported` is what the provider
-- lists, `kept` the list that the resolver keeps.
unfoldable pub look_up : List FbAsset → List FbAsset → Call → Option String
unfolding id_of_contract find_asset_by_contract_or_currency native_of mapping_native_tokens
look_up supported kept (resolve a) =
    found_id
      (find_asset_by_contract_or_currency supported a.symbol a.contract_address (is_some a.testnet))
look_up supported kept (resolve_by_contract contract blockchain t) = id_of_contract kept contract t
look_up supported kept (resolve_native blockchain symbol t) =
    id_or (mapped_id (native_of (upper symbol) (mapping_native_tokens t)))
      (found_id (find_asset_by_contract_or_currency supported symbol none t))

-- `_ensure_fb_assets`
abbrev pub ensured : List FbAsset → Option (List FbAsset) → List FbAsset
ensured supported none = supported
ensured supported (some kept) = kept

abbrev pub keeps : List FbAsset → Call → Option (List FbAsset) → Option (List FbAsset)
keeps supported (resolve a) kept = kept
keeps supported (resolve_by_contract contract blockchain t) kept = some (ensured supported kept)
keeps supported (resolve_native blockchain symbol t) kept = kept

abbrev pub entry : String → List (String × String) → Option (String × String)
entry key = find (λ (e : String × String). text_eq e.0 key)

abbrev pub remembered : String → Option String → List (String × String) → List (String × String)
remembered key none cache = cache
remembered key (some i) cache = (key, i) ∷ cache

abbrev pub missed : List FbAsset → Call → Resolver → Option String × Resolver
missed supported c r =
    let answer = look_up supported (ensured supported r.fb_assets) c in
    (
      answer,
      record {
        cache = remembered (key_of_call c) answer r.cache;
        fb_assets = keeps supported c r.fb_assets;
      },
    )

abbrev pub hit_or_missed :
    List FbAsset → Call → Resolver → Option (String × String) → Option String × Resolver
hit_or_missed supported c r none = missed supported c r
hit_or_missed supported c r (some e) = (some e.1, r)

unfoldable pub run_call : List FbAsset → Call → Resolver → Option String × Resolver
unfolding key_of_call look_up
run_call supported c r = hit_or_missed supported c r (entry (key_of_call c) r.cache)

-- Calls one after another, while the provider lists the same assets.
unfoldable pub run_calls : List FbAsset → List Call → Resolver → List (Option String)
unfolding run_call
run_calls supported [] r = []
run_calls supported (c ∷ cs) r =
    let (answer, r') = run_call supported c r in
    let rest = run_calls supported cs r' in answer ∷ rest

-- ===== src/Fireblocks/Search.antt =====
-- app/services/custody/fireblocks/service.py, `find_asset_by_contract_or_currency`: an asset among
-- those that Fireblocks supports, by the contract of a token or by the name of a coin.
pub mod Sound
use mathlib.Core.Option
use custody_service.Common.{
  ℕ, String, Bool, true, false, ◌&&◌, ◌||◌, not, Option, none, some, List, [], ◌∷◌, ◌++◌, find,
  upper, codes, codes_eq, starts_with, contains, is_filled, if◌then◌else◌,
}
use custody_service.Fireblocks.Assets.{FbAsset, Metadata, parse_fireblocks_asset}
use custody_service.Fireblocks.Natives.{Native, native_of, mapping_native_tokens, has_contract}

-- The asset with the three fields that the function adds or replaces.
pub record FoundAsset : Type 0 where
  pub asset : FbAsset
  pub blockchain : Option String
  pub network : Option String
  pub is_testnet : Bool

abbrev mentions_test : Option String → Bool
mentions_test none = false
mentions_test (some s) = contains (upper s) (codes "TEST")

-- `_is_asset_testnet`
unfoldable pub is_asset_testnet : FbAsset → Bool
is_asset_testnet a =
    mentions_test (some a.id) || (mentions_test a.type || mentions_test a.native_asset)

abbrev pub same_flag : Bool → Bool → Bool
same_flag true b = b
same_flag false b = not b

abbrev flag_or : Bool → Option Metadata → Bool
flag_or t none = t
flag_or t (some m) = m.is_testnet

-- `parse_fireblocks_asset(…) or {}`
abbrev pub described_by : Bool → FbAsset → Option Metadata → FoundAsset
described_by t a m = record {
  asset = a;
  blockchain = Option.map (λ (x : Metadata). x.blockchain) m;
  network = Option.map (λ (x : Metadata). x.network) m;
  is_testnet = flag_or t m;
}

abbrev type_or : Option String → String → Option String
type_or t n = if is_filled t then t else some n

-- `parse_fireblocks_asset(…) or native_map`; the asset's own `type` goes before the network.
abbrev described_native : Native → FbAsset → Option Metadata → FoundAsset
described_native n a none = record {
  asset = a;
  blockchain = some n.blockchain;
  network = type_or a.type n.network;
  is_testnet = n.is_testnet;
}
described_native n a (some m) = record {
  asset = a;
  blockchain = some m.blockchain;
  network = type_or a.type m.network;
  is_testnet = m.is_testnet;
}

-- The test of the loop over tokens.
abbrev pub is_token : String → Bool → FbAsset → Bool
is_token contract t a = has_contract contract a && same_flag (is_asset_testnet a) t

unfoldable pub find_token : List FbAsset → String → Bool → Option FoundAsset
unfolding is_asset_testnet parse_fireblocks_asset
find_token assets contract t =
    Option.map (λ a. described_by t a (parse_fireblocks_asset a.id a))
      (find (is_token contract t) assets)

-- The explicit mapping of coins.
abbrev find_mapped : List FbAsset → Option Native → Option FoundAsset
find_mapped assets none = none
find_mapped assets (some n) =
    Option.map (λ a. described_native n a (parse_fireblocks_asset n.asset_id a))
      (find (λ (a : FbAsset). codes_eq (upper a.id) (upper n.asset_id)) assets)

abbrev symbol_is : List ℕ → Option String → Bool
symbol_is u none = codes_eq u []
symbol_is u (some s) = codes_eq (upper s) u

-- The test of the last loop: no contract, the right net, and the name in the id or the symbol.
abbrev pub is_coin : List ℕ → Bool → FbAsset → Bool
is_coin u t a =
    not (is_filled a.contract_address)
    && (same_flag (is_asset_testnet a) t
        && (codes_eq (codes a.id) u
            || (starts_with (codes a.id) (u ++ codes "_") || symbol_is u a.symbol)))

abbrev or_else : {A : Type 0} → Option A → Option A → Option A
or_else none y = y
or_else (some x) y = some x

unfoldable pub find_coin : List FbAsset → String → Bool → Option FoundAsset
unfolding is_asset_testnet parse_fireblocks_asset native_of mapping_native_tokens
find_coin assets currency t =
    or_else (find_mapped assets (native_of (upper currency) (mapping_native_tokens t))) (
      Option.map (λ a. described_by t a (parse_fireblocks_asset a.id a))
        (find (is_coin (upper currency) t) assets))

unfoldable pub find_asset_by_contract_or_currency :
    List FbAsset → String → Option String → Bool → Option FoundAsset
unfolding find_token find_coin
find_asset_by_contract_or_currency assets currency none t = find_coin assets currency t
find_asset_by_contract_or_currency assets currency (some contract) t =
    if is_filled (some contract) then find_token assets contract t else find_coin assets currency t

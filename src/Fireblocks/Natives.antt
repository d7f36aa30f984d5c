-- ===== src/Fireblocks/Natives.antt =====
-- app/services/custody/fireblocks/utils.py, `mapping_native_tokens`, and asset_mapper.py, which
-- finds the Fireblocks id of a coin in it and that of a token in the supported assets.
use custody_service.Common.{
  ℕ, String, Bool, true, false, Option, none, some, List, [], ◌∷◌, upper, codes, codes_eq,
  is_filled, if◌then◌else◌,
}
use custody_service.Fireblocks.Assets.{FbAsset}

pub record Native : Type 0 where
  pub symbol : String
  pub asset_id : String
  pub blockchain : String
  pub currency : String
  pub network : String
  pub is_testnet : Bool

abbrev native : String → String → String → String → Bool → Native
native symbol asset_id blockchain network is_testnet = record {
  symbol = symbol;
  asset_id = asset_id;
  blockchain = blockchain;
  currency = symbol;
  network = network;
  is_testnet = is_testnet;
}

-- `mapping_native_tokens()["prod"]` and `["dev"]`
unfoldable pub mapping_native_tokens : Bool → List Native
mapping_native_tokens false =
    native "ETH" "ETH" "ETHEREUM" "NATIVE" false
    ∷ native "TRX" "TRX" "TRON" "NATIVE" false
    ∷ native "TON" "TON" "TON" "NATIVE" false
    ∷ native "BNB" "BNB_BSC" "BSC" "BSC" false
    ∷ native "MATIC" "MATIC_POLYGON" "POLYGON" "POLYGON" false
    ∷ native "BTC" "BTC" "BITCOIN" "NATIVE" false
    ∷ native "SOL" "SOL" "SOLANA" "NATIVE" false
    ∷ []
mapping_native_tokens true =
    native "ETH" "ETH_TEST5" "ETHEREUM" "SEPOLIA" true
    ∷ native "TRX" "TRX_TEST" "TRON" "SHASTA" true
    ∷ native "TON" "TON_TEST" "TON" "TESTNET" true
    ∷ native "BNB" "BNB_TEST" "BSC" "TESTNET" true
    ∷ native "MATIC" "AMOY_POLYGON_TEST" "POLYGON" "AMOY" true
    ∷ native "BTC" "BTC_TEST" "BITCOIN" "TESTNET" true
    ∷ native "SOL" "SOL_TEST" "SOLANA" "DEVNET" true
    ∷ []

-- `native_mapping[env].get(currency_upper)`
unfoldable pub native_of : List ℕ → List Native → Option Native
native_of u [] = none
native_of u (n ∷ ns) = if codes_eq (codes n.symbol) u then some n else native_of u ns

abbrev id_of : Option Native → Option String
id_of none = none
id_of (some n) = some n.asset_id

-- `address and address.lower() == contract_lower`; the case is folded to upper here, which
-- identifies the same ASCII texts.
abbrev pub is_address : Option String → String → Bool
is_address none contract = false
is_address (some a) contract =
    if is_filled (some a) then codes_eq (upper a) (upper contract) else false

abbrev pub has_contract : String → FbAsset → Bool
has_contract contract a =
    if is_address a.contract_address contract then true else is_address a.issuer_address contract

unfoldable pub id_by_contract : String → List FbAsset → Option String
id_by_contract contract [] = none
id_by_contract contract (a ∷ rest) =
    if has_contract contract a then some a.id else id_by_contract contract rest

unfoldable pub map_currency_to_fireblocks_asset :
    String → Option String → Bool → List FbAsset → Option String
unfolding native_of mapping_native_tokens id_by_contract
map_currency_to_fireblocks_asset currency none is_testnet fb_assets =
    id_of (native_of (upper currency) (mapping_native_tokens is_testnet))
map_currency_to_fireblocks_asset currency (some contract) is_testnet fb_assets =
    if is_filled (some contract)
    then id_by_contract contract fb_assets
    else id_of (native_of (upper currency) (mapping_native_tokens is_testnet))

-- `{currency, contract_address}`
pub record Wanted : Type 0 where
  pub currency : String
  pub contract_address : Option String

-- `if asset_id: resolved_ids.append(asset_id)`
abbrev append_id : Option String → List String → List String
append_id none ids = ids
append_id (some i) ids = if is_filled (some i) then i ∷ ids else ids

unfoldable pub resolve_assets_to_fireblocks_ids : List Wanted → Bool → List FbAsset → List String
unfolding map_currency_to_fireblocks_asset
resolve_assets_to_fireblocks_ids [] is_testnet fb_assets = []
resolve_assets_to_fireblocks_ids (a ∷ assets) is_testnet fb_assets =
    append_id (map_currency_to_fireblocks_asset a.currency a.contract_address is_testnet fb_assets)
      (resolve_assets_to_fireblocks_ids assets is_testnet fb_assets)

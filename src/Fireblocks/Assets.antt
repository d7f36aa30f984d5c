-- ===== src/Fireblocks/Assets.antt =====
-- app/services/custody/fireblocks/utils.py, `parse_fireblocks_asset`: what an asset id says. The
-- id is read in upper case, as the list of its code points.
use custody_service.Common.{
  ℕ, String, Bool, true, false, ◌||◌, Option, none, some, List, upper, codes, starts_with, contains,
  codes_eq, is_filled, if◌then◌else◌,
}

-- An entry of the supported assets of Fireblocks: the fields that the service reads.
pub record FbAsset : Type 0 where
  pub id : String
  pub contract_address : Option String
  pub issuer_address : Option String
  pub type : Option String
  pub native_asset : Option String
  pub symbol : Option String
  pub decimals : Option ℕ

pub record Metadata : Type 0 where
  pub blockchain : String
  pub currency : String
  pub network : String
  pub decimals : ℕ
  pub is_testnet : Bool

abbrev begins : List ℕ → String → Bool
begins u s = starts_with u (codes s)

abbrev has : List ℕ → String → Bool
has u s = contains u (codes s)

-- The first pattern of `testnet_patterns` that the id contains.
unfoldable pub testnet_of : List ℕ → Option String
testnet_of u =
    if has u "TEST6"
    then some "HOLESKY"
    else if has u "TEST5"
    then some "SEPOLIA"
    else if has u "TEST4"
    then some "SHASTA"
    else if has u "TEST"
    then some "TESTNET"
    else if has u "AMOY"
    then some "AMOY"
    else if has u "MUMBAI"
    then some "MUMBAI"
    else if has u "DEVNET"
    then some "DEVNET"
    else none

-- The variables `blockchain`, `currency` and `network` of the function.
pub record Guess : Type 0 where
  pub blockchain : Option String
  pub currency : Option String
  pub network : String

abbrev named : String → String → String → Guess
named b c n = record { blockchain = some b; currency = some c; network = n }

abbrev on_chain : String → Option String → String → Guess
on_chain b c n = record { blockchain = some b; currency = c; network = n }

-- The first ladder: the coin of a chain, by the start of the id or the chain's mark in it.
unfoldable pub coin_of : List ℕ → String → Guess
coin_of u n =
    if begins u "ETH"
    then named "ETHEREUM" "ETH" n
    else if begins u "BTC"
    then named "BITCOIN" "BTC" n
    else if begins u "TRX" || has u "_TRX"
    then on_chain "TRON" (if begins u "TRX" then some "TRX" else none) n
    else if begins u "BNB" || has u "_BSC"
    then on_chain "BSC" (if begins u "BNB" then some "BNB" else none) n
    else if has u "POLYGON" || begins u "MATIC"
    then on_chain "POLYGON" (if begins u "MATIC" || begins u "AMOY" then some "MATIC" else none) n
    else if begins u "SOL"
    then named "SOLANA" "SOL" n
    else if begins u "TON"
    then (if has u "_USDT" then named "TON" "USDT" "JETTON" else named "TON" "TON" n)
    else if begins u "XRP"
    then named "XRP" "XRP" n
    else if begins u "DOGE"
    then named "DOGECOIN" "DOGE" n
    else if begins u "LTC"
    then named "LITECOIN" "LTC" n
    else record { blockchain = none; currency = none; network = n }

abbrev is_chain : String → Guess → Bool
is_chain b g = elim g.blockchain [ none ↦ false | some c ↦ codes_eq (codes c) (codes b) ]

abbrev usdt : List ℕ → Bool → Guess → Guess
usdt u t g =
    if has u "_ETH" || (has u "_ERC20" || is_chain "ETHEREUM" g)
    then named "ETHEREUM" "USDT" (if t then g.network else "ERC20")
    else if has u "_TRX" || is_chain "TRON" g
    then named "TRON" "USDT" (if t then "SHASTA" else "TRC20")
    else if has u "_BSC" || is_chain "BSC" g
    then named "BSC" "USDT" "BEP20"
    else if has u "_POLYGON" || is_chain "POLYGON" g
    then named "POLYGON" "USDT" (if t then g.network else "POLYGON")
    else record g { currency = some "USDT" }

abbrev usdc : List ℕ → Bool → Guess → Guess
usdc u t g =
    if has u "_POLYGON"
    then named "POLYGON" "USDC" "POLYGON"
    else if has u "_ETH" || (has u "_ERC20" || (codes_eq u (codes "USDC") || is_chain "ETHEREUM" g))
    then named "ETHEREUM" "USDC" (if t then g.network else "ERC20")
    else if has u "_TRX"
    then named "TRON" "USDC" "TRC20"
    else record g { currency = some "USDC" }

abbrev dai : List ℕ → Bool → Guess → Guess
dai u t g =
    if has u "_ETH" || (codes_eq u (codes "DAI") || is_chain "ETHEREUM" g)
    then named "ETHEREUM" "DAI" (if t then g.network else "ERC20")
    else record g { currency = some "DAI" }

-- The second ladder: the tokens.
unfoldable pub token_of : List ℕ → Bool → Guess → Guess
token_of u t g =
    if begins u "USDT"
    then usdt u t g
    else if begins u "USDC"
    then usdc u t g
    else if begins u "DAI"
    then dai u t g
    else g

abbrev network_or : Option String → String
network_or none = "NATIVE"
network_or (some n) = n

abbrev pub is_testnet_of : Option String → Bool
is_testnet_of none = false
is_testnet_of (some n) = true

abbrev pub filled_type : Option String → String → String
filled_type none n = n
filled_type (some t) n = if is_filled (some t) then t else n

abbrev pub decimals_or : Option ℕ → ℕ
decimals_or none = 18
decimals_or (some d) = d

abbrev pub described : Bool → FbAsset → Guess → Option String → Option String → Option Metadata
described t a g none c = none
described t a g (some b) none = none
described t a g (some b) (some c) = some (record {
  blockchain = b;
  currency = c;
  network = filled_type a.type g.network;
  decimals = decimals_or a.decimals;
  is_testnet = t;
})

-- What both ladders have found for an id.
unfoldable pub guess_of : String → Guess
unfolding upper testnet_of coin_of token_of
guess_of asset_id =
    let u = upper asset_id in
    let net = testnet_of u in token_of u (is_testnet_of net) (coin_of u (network_or net))

unfoldable pub parse_fireblocks_asset : String → FbAsset → Option Metadata
unfolding upper testnet_of guess_of
parse_fireblocks_asset asset_id a =
    let g = guess_of asset_id in
    described (is_testnet_of (testnet_of (upper asset_id))) a g g.blockchain g.currency

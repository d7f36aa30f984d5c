-- ===== src/Tests/Fireblocks.antt =====
-- The provider's assets and vaults, and the database's sessions.
use custody_service.Common.{
  ℕ, zero, suc, ◌≡◌, ◌≢◌, refl, sym, text_eq_iff, true, false, Option, none, some, List, [], ◌∷◌,
  inl, map, is_some, arith, String,
}
use custody_service.Fireblocks.Assets.{FbAsset}
use custody_service.Fireblocks.Search.{find_asset_by_contract_or_currency}
use custody_service.Fireblocks.Search.Sound.{FindsToken, find_asset-FindsToken}
use custody_service.Fireblocks.Resolver.{
  Call, resolve_by_contract, resolve_native, key_of_call, run_calls, empty_resolver,
}
use custody_service.Fireblocks.Resolver.Refinement.{uncached, IsDetermined, run_calls-refines}
use custody_service.Fireblocks.Paging.{Client, page, first_path, get_vaults}
use custody_service.Fireblocks.Paging.Termination.{IsFinite, get_vaults-ends}
use custody_service.Storage.{DbError, get_db, get_db_local}
use custody_service.Storage.Attempts.{IsCaught, IsBounded, get_db-IsBounded}

abbrev token : FbAsset
token = record {
  id = "USDC";
  contract_address = some "0xAb";
  issuer_address = none;
  type = some "ERC20";
  native_asset = some "ETH";
  symbol = none;
  decimals = some 6;
}

abbrev supported : List FbAsset
supported = record token { id = "USDC_TEST" } ∷ token ∷ []

-- The contract is given in another case, and the first asset is of the other net.
find_asset-FindsToken_example :
    FindsToken supported "0xab" false
      (find_asset_by_contract_or_currency supported "USDC" (some "0xab") false)
find_asset-FindsToken_example = find_asset-FindsToken supported "USDC" "0xab" false refl

-- The second call of the contract is answered from the cache.
abbrev calls : List Call
calls =
    resolve_by_contract "0xab" "ETHEREUM" false
    ∷ resolve_native "ETHEREUM" "ETH" false
    ∷ resolve_by_contract "0xab" "ETHEREUM" false
    ∷ []

abbrev contract_key : String
contract_key = "ETHEREUM:0xab:MAINNET"

abbrev native_key : String
native_key = "ETHEREUM:NATIVE:MAINNET"

keys_differ : contract_key ≢ native_key
keys_differ e = ground (arith, (text_eq_iff contract_key native_key).1 e)

determined : IsDetermined supported calls
unfolding key_of_call
determined = (
  (λ _. refl, (λ e. absurd (keys_differ (sym e)), (λ _. refl, tt))),
  (
    (λ e. absurd (keys_differ e), (λ _. refl, (λ e. absurd (keys_differ e), tt))),
    ((λ _. refl, (λ e. absurd (keys_differ (sym e)), (λ _. refl, tt))), tt),
  ),
)

run_calls-refines_example :
    run_calls supported calls empty_resolver ≡ map (uncached supported) calls
run_calls-refines_example = run_calls-refines supported calls determined

-- Every page leads back to the first.
abbrev client : Client
client = record {
  request = λ path. page (record {
    accounts = [];
    next_url = some "/v1/vault/accounts_paged?limit=500";
    after = none;
  });
  base_url = "https://provider";
  quote = λ s. s;
  path_of = λ s. s;
}

abbrev paths : List String
paths = first_path client none ∷ []

finite : IsFinite client none paths
finite = record { first = inl refl; next = λ path following p e g. inl (ground (arith, e, g)) }

get_vaults-ends_example : is_some (get_vaults client 2 none) ≡ true
get_vaults-ends_example = get_vaults-ends client none paths 2 finite (omega arith)

-- The first two attempts fail, the first of them for its credentials.
abbrev denied : DbError
denied = record {
  is_privilege = true;
  is_authorization = false;
  is_connection = true;
  message = "permission denied";
}

abbrev ping : ℕ → Option DbError
ping zero = some denied
ping (suc zero) = some denied
ping (suc (suc n)) = none

ping-IsCaught : IsCaught ping
ping-IsCaught zero e h = ground (arith, h)
ping-IsCaught (suc zero) e h = ground (arith, h)
ping-IsCaught (suc (suc n)) e h = cc

get_db-IsBounded_example :
    IsBounded (get_db false ping) × IsBounded (get_db_local false ping (some denied))
get_db-IsBounded_example = get_db-IsBounded false ping (some denied) ping-IsCaught

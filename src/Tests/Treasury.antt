-- ===== src/Tests/Treasury.antt =====
-- The treasury's vaults: a new primary vault, another one that takes its place, and the reports.
use custody_service.Common.{
  ◌≡◌, refl, true, false, none, some, Bool, List, [], ◌∷◌, ℕ, pos, map, arith, upper,
}
use custody_service.Models.{Vault, VaultType, get_asset}
use custody_service.Session.{ok}
use custody_service.Activation.{
  _find_asset_by_params, testnet_for, _resolve_fireblocks_id, activated, place_wallet,
}
use custody_service.Treasury.{wallet_infos}
use custody_service.Treasury.Vaults.{
  Setting, TreasuryVaultCreateRequest, TreasuryVaultUpdateRequest, create_treasury_vault,
  update_treasury_vault,
}
use custody_service.Treasury.Balances.{
  AssetBalanceResponse, total_balance, overview_balances, get_balances_by_asset,
}
use custody_service.Treasury.Balances.Agreement.{sum_of_totals, reports_agree}
use custody_service.Treasury.Primary.{HasSinglePrimary}
use custody_service.Treasury.Sequences.{
  TreasuryRequest, create, update, serve_treasury, serve_treasury-HasSinglePrimary,
}
use custody_service.Tests.Data.{db, world, custody}

abbrev setting : Setting
setting = record {
  is_testnet = false;
  custody = custody;
  asset_of_new = λ d w. get_asset d w.asset_id;
}

abbrev new_vault : TreasuryVaultCreateRequest
new_vault = record {
  name = "three";
  vault_type = VaultType.hot;
  assets = record { blockchain = "ethereum"; contract_address = none } ∷ [];
  is_primary = true;
  min_balance_usd = some (pos 10);
  max_balance_usd = none;
  target_balance_percent = none;
  auto_refill_enabled = false;
  auto_refill_threshold_percent = none;
  auto_refill_target_percent = none;
  description = none;
}

abbrev make_primary : TreasuryVaultUpdateRequest
make_primary = record {
  min_balance_usd = none;
  max_balance_usd = none;
  target_balance_percent = none;
  auto_refill_enabled = none;
  auto_refill_threshold_percent = none;
  auto_refill_target_percent = none;
  is_primary = some true;
  description = none;
}

abbrev requests : List TreasuryRequest
requests = create setting new_vault ∷ update 2 make_primary ∷ []

one_primary : HasSinglePrimary db
one_primary = record { primary_id = λ t. 1; only = λ t. (λ e. refl, (λ e. ground (arith, e), tt)) }

serve_treasury-HasSinglePrimary_example : HasSinglePrimary (serve_treasury requests world).committed
serve_treasury-HasSinglePrimary_example = serve_treasury-HasSinglePrimary requests world one_primary

-- The new vault takes the place of the first, and the second that of the new one.
run_treasury :
    map {B = ℕ × Bool}
      (λ (v : Vault). (v.id, v.is_primary))
      (serve_treasury requests world).committed.vaults
    ≡ (1, false) ∷ (2, true) ∷ (100, false) ∷ []
unfolding serve_treasury create_treasury_vault update_treasury_vault upper _find_asset_by_params
    testnet_for _resolve_fireblocks_id activated place_wallet wallet_infos
run_treasury = refl

reports_agree_example :
    (rs : List AssetBalanceResponse) × (get_balances_by_asset world ≡ (ok rs, world))
    × (sum_of_totals rs ≡ total_balance (overview_balances db))
reports_agree_example = reports_agree world (refl, (refl, tt))

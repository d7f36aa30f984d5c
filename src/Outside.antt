-- ===== src/Outside.antt =====
-- What a request takes from outside the repository: the time, fresh identifiers, the reading of a
-- decimal number, and the answers of the custody provider.
use custody_service.Common.{ℕ, String, Bool, Option, List, ℤ}
use custody_service.Fireblocks.Assets.{FbAsset}

-- The request for `provider.create_transaction`.
pub record ProviderTx : Type 0 where
  pub asset_id : String
  pub source : String
  pub to_vault : Option String
  pub to_address : Option String
  pub amount : String
  pub external_tx_id : String
  pub note : Option String

-- Its answer: `id`, `txHash`, `status`.
pub record FbTx : Type 0 where
  pub id : String
  pub tx_hash : Option String
  pub status : Option String

-- `decimal` is Python's `Decimal(…)` in units of the eighteenth place, `none` where it raises.
-- `none` of the provider's calls stands for an exception. `is_testnet` is of the settings.
pub record Outside : Type 0 where
  pub now : ℕ
  pub new_id : ℕ
  pub new_request_id : String
  pub is_testnet : Bool
  pub decimal : String → Option ℤ
  pub supported_assets : Option (List FbAsset)
  pub create_transaction : ProviderTx → Option FbTx
  pub whitelist : String → String → Option (List String)

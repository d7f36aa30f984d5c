-- ===== src/Custody.antt =====
-- The custody provider as its clients see it (app/services/custody/providers/base.py and
-- fireblocks_provider.py): one answer for each call, or the text of the exception that it raises.
-- The provider behind these calls is not under src/, so that its answers are a parameter.
use custody_service.Common.{
  ℕ, String, Bool, Option, none, some, List, upper, codes, contains, text_eq, if◌then◌else◌,
}
use custody_service.Session.{Action, provider_error, pure, raise}

pub data Reply (A : Type 0) : Type 0 where
  answer : A → Reply A
  failure : String → Reply A

-- The answer to `activate_asset` and `get_vault_asset_info`; a missing `address` is the empty text.
pub record Address : Type 0 where
  pub address : String
  pub legacy_address : Option String
  pub tag : Option String

-- An entry of `get_vaults`.
pub record ProviderVault : Type 0 where
  pub id : Option String
  pub vault_account_id : Option String
  pub name : Option String
  pub account_name : Option String

-- `new_id` are the `uuid4()` of a request, in the order in which it draws them.
pub record Custody : Type 0 where
  pub create_vault : String → Reply String
  pub get_vaults : Option String → Reply (List ProviderVault)
  pub find_asset_by_contract_or_currency : String → Option String → Bool → Reply (Option String)
  pub activate_asset : String → String → Reply Address
  pub get_vault_asset_info : String → String → Reply (Option Address)
  pub new_id : ℕ → ℕ

abbrev pub replied : {A : Type 0} → Reply A → Action A
replied (answer a) = pure a
replied (failure message) = raise provider_error

-- `"…" in message.lower()`, for a text of ASCII.
abbrev pub mentions : String → String → Bool
mentions message part = contains (upper message) (upper part)

-- `part in message`
abbrev pub includes : String → String → Bool
includes message part = contains (codes message) (codes part)

-- `x` or `None`, an empty text being falsy.
abbrev pub filled : Option String → Option String
filled none = none
filled (some s) = if text_eq s "" then none else some s

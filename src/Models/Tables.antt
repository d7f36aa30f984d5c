-- ===== src/Models/Tables.antt =====
-- The tables, the lookups by primary key (`db.get`), and a request's session: the tables as the
-- session sees them, the tables as last committed, and what was sent to other services.
use custody_service.Common.{ℕ, Option, List, ◌==◌, find}
use custody_service.Models.Rows.{Vault, Asset, Wallet, Transfer, Transaction}

pub record Db : Type 0 where
  pub vaults : List Vault
  pub assets : List Asset
  pub wallets : List Wallet
  pub transfers : List Transfer
  pub transactions : List Transaction

abbrev pub get_vault : Db → ℕ → Option Vault
get_vault db i = find (λ (v : Vault). v.id == i) db.vaults

abbrev pub get_asset : Db → ℕ → Option Asset
get_asset db i = find (λ (a : Asset). a.id == i) db.assets

abbrev pub get_wallet : Db → ℕ → Option Wallet
get_wallet db i = find (λ (w : Wallet). w.id == i) db.wallets

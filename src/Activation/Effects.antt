-- ===== src/Activation/Effects.antt =====
-- What an activation keeps, whatever the provider answers.
use custody_service.Common.{ℕ, String, Option, none, some, [], ◌∷◌, ◌++◌, ◌==◌, update_where}
use custody_service.Models.{Db, Wallet, Vault, Asset}
use custody_service.Custody.{Custody, Address, Reply, answer, failure, replied}
use custody_service.Session.Keeping.{IsKeeping, keeping, modify-IsKeeping, pure-IsKeeping}
use custody_service.Activation.{
  AssetData, Activated, existing, added, insert, _find_asset_by_params, _resolve_fireblocks_id,
  activated, place_wallet, activate_asset_for_vault, new_wallet, with_address, add_wallet,
  refresh_wallet,
}

-- A property of the tables that a new empty wallet and a new address of a wallet leave true.
pub record Admits (I : Db → Type 0) : Type 0 where
  pub adds :
      (db : Db) (id : ℕ) (v : Vault) (a : Asset) (x : Address)
      → I db
      → I (record db { wallets = db.wallets ++ new_wallet id v a x ∷ [] })
  pub refreshes :
      (db : Db) (x : Address) (w : Wallet)
      → I db
      → I (record db {
        wallets = update_where (λ (u : Wallet). u.id == w.id) (with_address x) db.wallets;
      })

module _ (I : Db → Type 0) where
  replied-IsKeeping : {A : Type 0} (r : Reply A) → IsKeeping I (replied r)
  replied-IsKeeping (answer a) = pure-IsKeeping I a
  replied-IsKeeping (failure m) = search keeping

  find-IsKeeping : (b s : String) (t : Option String) → IsKeeping I (_find_asset_by_params b s t)
  unfolding _find_asset_by_params
  find-IsKeeping b s t = search keeping depth 10

  resolve-IsKeeping : (c : Custody) (a : Asset) → IsKeeping I (_resolve_fireblocks_id c a)
  unfolding _resolve_fireblocks_id
  resolve-IsKeeping c a = search (keeping, replied-IsKeeping) depth 10

  activated-IsKeeping :
      (c : Custody) (i j : String) (r : Reply Address) → IsKeeping I (activated c i j r)
  unfolding activated
  activated-IsKeeping c i j (answer x) = search keeping
  activated-IsKeeping c i j (failure m) = search (keeping, replied-IsKeeping) depth 10

  module _ (h : Admits I) where
    add_wallet-IsKeeping :
        (id : ℕ) (v : Vault) (a : Asset) (x : Address)
        → IsKeeping I (add_wallet (new_wallet id v a x))
    add_wallet-IsKeeping id v a x = modify-IsKeeping I _ (λ db i. h.adds db id v a x i)

    refresh_wallet-IsKeeping : (x : Address) (w : Wallet) → IsKeeping I (refresh_wallet x w)
    refresh_wallet-IsKeeping x w = modify-IsKeeping I _ (λ db i. h.refreshes db x w i)

    place-IsKeeping :
        (id : ℕ) (v : Vault) (a : Asset) (f : String) (x : Address) (w : Option Wallet)
        → IsKeeping I (place_wallet id v a f x w)
    unfolding place_wallet
    place-IsKeeping id v a f x none = search keeping depth 10
    place-IsKeeping id v a f x (some w) = search (keeping, refresh_wallet-IsKeeping) depth 10

    pub insert-IsKeeping : (a : Activated) → IsKeeping I (insert a)
    insert-IsKeeping (existing w) = search keeping
    insert-IsKeeping (added id v a x) = add_wallet-IsKeeping id v a x

    pub activate_asset_for_vault-IsKeeping :
        (c : Custody) (id : ℕ) (v : Vault) (d : AssetData)
        → IsKeeping I (activate_asset_for_vault c id v d)
    unfolding activate_asset_for_vault
    activate_asset_for_vault-IsKeeping c id v d =
        search (keeping, find-IsKeeping, resolve-IsKeeping, activated-IsKeeping, place-IsKeeping)
          depth 16

-- ===== src/BalanceSync/Publishing.antt =====
-- The message that follows a reservation changes no table.
use custody_service.Common.{ℕ, Bool, true, false, Option, none, some}
use custody_service.Models.{Db, Asset, Transfer}
use custody_service.Outside.{Outside}
use custody_service.Session.Keeping.{IsKeeping, keeping}
use custody_service.BalanceSync.Waiting.{fireblocks_id, publish, publish_if}

module _ (I : Db → Type 0) (o : Outside) where
  fireblocks_id-IsKeeping : (a : Option Asset) → IsKeeping I (fireblocks_id o a)
  fireblocks_id-IsKeeping none = search keeping
  fireblocks_id-IsKeeping (some a) = search keeping

  publish-IsKeeping : (t : Option Transfer) → IsKeeping I (publish o t)
  publish-IsKeeping none = search keeping
  publish-IsKeeping (some t) = search (keeping, fireblocks_id-IsKeeping) depth 16

  pub publish_if-IsKeeping : (b : Bool) (i : ℕ) → IsKeeping I (publish_if o b i)
  publish_if-IsKeeping true i = search (keeping, publish-IsKeeping) depth 8
  publish_if-IsKeeping false i = search keeping

-- ===== src/Session.antt =====
-- A request: it reads and changes the tables through a database session (app/storage/database.py),
-- commits or rolls back, sends messages and callbacks, and ends with a value or an exception.
pub mod Atomic
pub mod Keeping
pub mod Reading
pub mod At
use custody_service.Common.{
  ℕ, String, Bool, true, false, Option, none, some, List, [], ◌∷◌, ◌++◌, ℤ,
}
use custody_service.Models.{Db, InvoiceStatus}
use custody_service.Ledger.HotWallet.{Shortage}

-- `publish_transfer_created`
pub record CreatedMessage : Type 0 where
  pub request_id : String
  pub destination_address : String
  pub destination_tag : Option String
  pub amount : ℤ
  pub amount_usd : Option ℤ
  pub asset : String
  pub contract_address : Option String
  pub blockchain : String
  pub currency : String
  pub network : String
  pub source_vault_id : Option String
  pub source_address : Option String
  pub fireblocks_asset_id : Option String

-- `publish_balance_ready`
pub record ReadyMessage : Type 0 where
  pub request_id : String
  pub source_vault_id : String
  pub source_address : String
  pub destination_address : String
  pub destination_tag : Option String
  pub amount : ℤ
  pub contract_address : Option String
  pub blockchain : String

-- `PayoutStatus`
pub data PayoutStatus : Type 0 where
  completed failed rejected cancelled : PayoutStatus

-- `publish_custody_webhook`
pub record DepositMessage : Type 0 where
  pub custody_vault_id : ℕ
  pub amount : ℤ
  pub blockchain : String
  pub currency : String
  pub network : String
  pub status : InvoiceStatus
  pub tx_hash : Option String
  pub confirmations : Option ℕ
  pub asset_id : Option String

-- What the service asks its broker and the backend to take. Whether they took it is only logged.
pub data Event : Type 0 where
  transfer_created : CreatedMessage → Event
  balance_ready : ReadyMessage → Event
  custody_webhook : DepositMessage → Event
  payout_callback : String → PayoutStatus → Option String → Event
  whitelist_address : String → String → String → Event

pub data Error : Type 0 where
  http : ℕ → Error
  shortage : Shortage → Error
  value_error validation_error type_error provider_error decimal_error many_results : Error
  integrity_error runtime_error : Error

pub data Result (A : Type 0) : Type 0 where
  ok : A → Result A
  err : Error → Result A

-- `db` is what the session sees, `committed` what other sessions see.
pub record World : Type 0 where
  pub db : Db
  pub committed : Db
  pub sent : List Event

abbrev pub Action : Type 0 → Type 0
Action A = World → Result A × World

abbrev pub Done : Type 0
Done = Unit

abbrev pub pure : {A : Type 0} → A → Action A
pure a w = (ok a, w)

abbrev pub raise : {A : Type 0} → Error → Action A
raise e w = (err e, w)

abbrev pub then_run : {A B : Type 0} → Result A → (A → Action B) → Action B
then_run (ok a) f w = f a w
then_run (err e) f w = (err e, w)

infixl 5 ◌>>=◌ ◌>>◌
abbrev pub ◌>>=◌ : {A B : Type 0} → Action A → (A → Action B) → Action B
◌>>=◌ m f w = let (r, w') = m w in then_run r f w'

abbrev pub ◌>>◌ : {A B : Type 0} → Action A → Action B → Action B
m >> k = m >>= λ _. k

-- `try: m except Exception as e: handler e`
abbrev pub handled : {A : Type 0} → Result A → (Error → Action A) → Action A
handled (ok a) h w = (ok a, w)
handled (err e) h w = h e w

abbrev pub except : {A : Type 0} → Action A → (Error → Action A) → Action A
except m h w = let (r, w') = m w in handled r h w'

abbrev pub gets : {A : Type 0} → (Db → A) → Action A
gets f w = (ok (f w.db), w)

abbrev pub modify : (Db → Db) → Action Done
modify f w = (ok tt, record w { db = f w.db })

abbrev pub raise_if : Bool → Error → Action Done
raise_if true e w = (err e, w)
raise_if false e w = (ok tt, w)

abbrev pub or_raise : {A : Type 0} → Option A → Error → Action A
or_raise none e w = (err e, w)
or_raise (some a) e w = (ok a, w)

-- `result.scalar_one_or_none()`: more than one row is an exception.
abbrev pub scalar_one_or_none : {A : Type 0} → List A → Action (Option A)
scalar_one_or_none [] = pure none
scalar_one_or_none (x ∷ []) = pure (some x)
scalar_one_or_none (x ∷ y ∷ xs) = raise many_results

-- `await db.commit()`, `await db.rollback()`
abbrev pub commit : Action Done
commit w = (ok tt, record w { committed = w.db })

abbrev pub rollback : Action Done
rollback w = (ok tt, record w { db = w.committed })

abbrev pub send : Event → Action Done
send e w = (ok tt, record w { sent = w.sent ++ e ∷ [] })

-- `get_db`: a request has a session of its own, closed at its end: what it did not commit is lost.
abbrev pub respond : {A : Type 0} → Action A → Action A
respond m w = let (r, w') = m w in (r, record w' { db = w'.committed })

-- A world between two requests.
abbrev pub idle : Db → List Event → World
idle db events = record { db = db; committed = db; sent = events }

-- ===== src/Storage.antt =====
-- app/storage/database.py, `DatabaseManager.get_db` and `get_db_local`: a session is opened and
-- tried, with up to three attempts and fresh credentials between them, and closed in the end.
pub mod Counts
pub mod Attempts
use custody_service.Common.{
  ℕ, zero, suc, ◌+◌, ◌*◌, String, Bool, true, false, ◌&&◌, ◌||◌, not, Option, none, some, List, [],
  ◌∷◌, ◌++◌, ◌==◌, ltb, if◌then◌else◌,
}
use custody_service.Custody.{mentions}

-- An exception: whether it, or the error that it wraps, is an `InsufficientPrivilegeError`, whether
-- it is an `InvalidAuthorizationSpecificationError`, whether it is among the classes that the loop
-- catches, and its text.
pub record DbError : Type 0 where
  pub is_privilege : Bool
  pub is_authorization : Bool
  pub is_connection : Bool
  pub message : String

unfoldable pub _should_force_refresh_from_vault : Bool → DbError → Bool
_should_force_refresh_from_vault true e = false
_should_force_refresh_from_vault false e =
    e.is_privilege
    || (mentions e.message "permission denied"
        || (e.is_authorization
            || (mentions e.message "failed to make auth query"
                || (mentions e.message "password authentication failed"
                    || (mentions e.message "invalid password"
                        || mentions e.message "invalid authorization specification")))))

-- What the manager does: it opens and closes a session, rolls it back, asks for new credentials with
-- a new engine (whether this works is only logged), and sleeps, in tenths of a second.
pub data Step : Type 0 where
  opened closed rolled_back refreshed : Step
  slept : ℕ → Step

-- How the loop ends: with a session, or with an exception.
pub data Ending : Type 0 where
  ready : Ending
  failed : DbError → Ending

pub record Run : Type 0 where
  pub steps : List Step
  pub ending : Ending

abbrev pub doing : List Step → Run → Run
doing steps r = record { steps = steps ++ r.steps; ending = r.ending }

abbrev max_retries : ℕ
max_retries = 3

abbrev pub power_of_two : ℕ → ℕ
power_of_two zero = 1
power_of_two (suc n) = 2 * power_of_two n

-- `(2**attempt) + (0.1 * attempt)` seconds
abbrev pub backoff : ℕ → ℕ
backoff attempt = 10 * power_of_two attempt + attempt

abbrev pub refresh_if : Bool → List Step
refresh_if true = refreshed ∷ []
refresh_if false = []

-- The `except` clause: `again` are the attempts that are left.
abbrev pub caught : Bool → ℕ → DbError → Run → Run
caught is_local attempt e again =
    if attempt == 2
    then record { steps = closed ∷ []; ending = failed e }
    else doing
        (closed ∷ refresh_if (_should_force_refresh_from_vault is_local e)
          ++ slept (backoff attempt) ∷ [])
        again

abbrev pub tried : Bool → ℕ → Option DbError → Run → Run
tried is_local attempt none again = record { steps = []; ending = ready }
tried is_local attempt (some e) again =
    if e.is_connection
    then caught is_local attempt e again
    else record { steps = []; ending = failed e }

-- `for attempt in range(max_retries)`; `ping attempt` is the exception of the attempt's `SELECT 1`.
unfoldable pub attempts : Bool → (ℕ → Option DbError) → ℕ → ℕ → Run
attempts is_local ping zero attempt = record { steps = []; ending = ready }
attempts is_local ping (suc left) attempt =
    let again = attempts is_local ping left (suc attempt) in
    doing (opened ∷ []) (tried is_local attempt (ping attempt) again)

unfoldable pub connect : Bool → (ℕ → Option DbError) → Run
unfolding attempts
connect is_local ping = attempts is_local ping max_retries 0

abbrev using : Ending → Run → List Step → Run
using (failed e) inside steps = record { steps = steps; ending = failed e }
using ready inside steps = record { steps = steps ++ inside.steps; ending = inside.ending }

-- The session is used, and closed.
abbrev pub then_use : Run → Run → Run
then_use r inside = using r.ending inside r.steps

abbrev only_closed : Run
only_closed = record { steps = closed ∷ []; ending = ready }

-- The dependency of the endpoints: what the endpoint raises passes through.
unfoldable pub get_db : Bool → (ℕ → Option DbError) → Run
unfolding connect
get_db is_local ping = then_use (connect is_local ping) only_closed

-- What the body of `async with get_db_local()` raises rolls the session back.
unfoldable pub after_body : Bool → Option DbError → Run
after_body is_local none = only_closed
after_body is_local (some e) = record {
  steps = (rolled_back ∷ refresh_if (_should_force_refresh_from_vault is_local e)) ++ closed ∷ [];
  ending = failed e;
}

unfoldable pub get_db_local : Bool → (ℕ → Option DbError) → Option DbError → Run
unfolding connect after_body
get_db_local is_local ping raised = then_use (connect is_local ping) (after_body is_local raised)

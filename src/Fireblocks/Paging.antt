-- ===== src/Fireblocks/Paging.antt =====
-- app/services/custody/fireblocks/service.py, `get_vaults`: the provider's vaults, page by page.
pub mod Termination
use custody_service.Common.{
  ℕ, zero, suc, String, Bool, true, false, Option, none, some, List, [], ◌∷◌, ◌++◌, any, text_eq,
  append_text, starts_with, codes, is_filled, if◌then◌else◌,
}
use custody_service.Custody.{ProviderVault, filled}

-- A page that is a JSON object: `accounts`, `nextUrl` and `paging.after`.
pub record Page : Type 0 where
  pub accounts : List ProviderVault
  pub next_url : Option String
  pub after : Option String

-- `_request("GET", path)`: an object, another value, or an exception.
pub data Reply : Type 0 where
  page : Page → Reply
  other : Reply
  failed : Reply

-- What the function takes from outside: the HTTP client, `quote`, and of `urlparse` the path of a
-- URL with its query.
pub record Client : Type 0 where
  pub request : String → Reply
  pub base_url : String
  pub quote : String → String
  pub path_of : String → String

-- `None` of the second is an exception.
pub data Listing : Type 0 where
  listed : List ProviderVault → Listing
  raised : Listing

abbrev first_page : String
first_page = "/v1/vault/accounts_paged?limit=500"

-- The limit and, for a prefix that is not empty, `namePrefix`.
abbrev pub first_path : Client → Option String → String
first_path c prefix = elim (filled prefix) [
  | none ↦ first_page
  | some p ↦ append_text first_page (append_text "&namePrefix=" (c.quote p))
]

-- `next_url`: the page's own, or one that is built from `after`.
abbrev pub next_url_of : Client → Option String → Page → Option String
next_url_of c prefix p = if is_filled p.next_url then p.next_url else elim (filled p.after) [
  | none ↦ none
  | some a ↦
      some (append_text c.base_url (append_text (first_path c prefix) (append_text "&after=" a)))
]

-- The path of the next request; an absolute URL is parsed.
abbrev pub next_path_of : Client → Option String → Option String
next_path_of c none = none
next_path_of c (some url) =
    if starts_with (codes url) (codes "http")
    then filled (some (c.path_of url))
    else filled (some url)

-- `while next_path`, with the set of the paths that were requested. `none` means that the fuel was
-- too small.
abbrev pub after_page :
    (String → List ProviderVault → Option Listing)
    → List ProviderVault
    → Option String
    → Option Listing
after_page next accounts none = some (listed accounts)
after_page next accounts (some path) = next path accounts

abbrev pub after_reply :
    Client
    → Option String
    → (String → List ProviderVault → Option Listing)
    → List ProviderVault
    → Reply
    → Option Listing
after_reply c prefix next accounts failed = some raised
after_reply c prefix next accounts other = some (listed accounts)
after_reply c prefix next accounts (page p) =
    after_page next (accounts ++ p.accounts) (next_path_of c (next_url_of c prefix p))

unfoldable pub is_seen : String → List String → Bool
is_seen path seen = any (λ s. text_eq s path) seen

unfoldable pub pages :
    Client → Option String → ℕ → List String → String → List ProviderVault → Option Listing
unfolding is_seen
pages c prefix zero seen path accounts = none
pages c prefix (suc fuel) seen path accounts =
    let next = pages c prefix fuel (path ∷ seen) in
    if is_seen path seen
    then some (listed accounts)
    else after_reply c prefix next accounts (c.request path)

unfoldable pub get_vaults : Client → ℕ → Option String → Option Listing
unfolding pages
get_vaults c fuel prefix = pages c prefix fuel [] (first_path c prefix) []

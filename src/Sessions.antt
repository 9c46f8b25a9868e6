-- ===== src/Sessions.antt =====
-- backend/src/auth/session.rs: the in-memory session store and its four maps. Each method is one step.
-- Times are seconds; a token and an account id are arguments where the source draws them at random, and
-- the key derivation (HMAC-SHA256) is a parameter.
pub mod Links
pub mod Keyed
pub mod Expired
pub mod Purge
pub mod Consistent
pub mod Access
mod Tests
use rav.Common.{
  ℕ, ◌+◌, ◌-◌, String, Bool, true, false, not, Option, none, some, List, [], ◌∷◌, ◌++◌, ltb,
  if◌then◌else◌, str_eq, any, keep, Dict, lookup, insert, remove, unwrap_or, filter_map,
}

pub record ServerEndpoint : Type 0 where
  pub host : String
  pub port : ℕ
  pub tls : Bool

pub record AccountSession : Type 0 where
  pub account_id : String
  pub email : String
  pub password : String
  pub user_hash : String
  pub imap : ServerEndpoint
  pub smtp : ServerEndpoint
  pub last_accessed : ℕ
  pub timeout_override : Option ℕ
  pub folder_key : List ℕ

pub record SessionStore : Type 0 where
  pub sessions : Dict AccountSession
  pub browsers : Dict (List String)
  pub account_to_session : Dict String
  pub account_to_browser : Dict String
  pub timeout : ℕ

abbrev pub new_store : ℕ → SessionStore
new_store timeout = record {
  sessions = [];
  browsers = [];
  account_to_session = [];
  account_to_browser = [];
  timeout = timeout;
}

unfoldable pub create_browser : String → SessionStore → SessionStore
create_browser browser_id s = record s { browsers = insert browser_id [] s.browsers }

-- The credentials and servers of a login.
pub record Login : Type 0 where
  pub email : String
  pub password : String
  pub user_hash : String
  pub imap : ServerEndpoint
  pub smtp : ServerEndpoint

abbrev pub new_session : (String → List ℕ) → String → String → ℕ → Login → AccountSession
new_session derive_folder_key token account_id now login = record {
  account_id = account_id;
  email = login.email;
  password = login.password;
  user_hash = login.user_hash;
  imap = login.imap;
  smtp = login.smtp;
  last_accessed = now;
  timeout_override = none;
  folder_key = derive_folder_key token;
}

unfoldable pub add_account_to_browser :
    (String → List ℕ) → String → String → ℕ → String → Login → SessionStore → SessionStore
add_account_to_browser derive_folder_key token account_id now browser_id login s = record s {
  sessions = insert token (new_session derive_folder_key token account_id now login) s.sessions;
  account_to_session = insert account_id token s.account_to_session;
  account_to_browser = insert account_id browser_id s.account_to_browser;
  browsers =
      insert browser_id (unwrap_or (lookup browser_id s.browsers) [] ++ account_id ∷ []) s.browsers;
}

-- `retain` in `evict_account`: the account leaves every list, and an empty list leaves the map.
unfoldable pub retain_others : String → Dict (List String) → Dict (List String)
retain_others account_id [] = []
retain_others account_id ((browser_id, accounts) ∷ others) =
    let rest = retain_others account_id others in
    kept (keep (λ id. not (str_eq id account_id)) accounts) rest
  where
    kept : List String → Dict (List String) → Dict (List String)
    kept [] rest = rest
    kept (a ∷ accs) rest = (browser_id, a ∷ accs) ∷ rest

unfoldable pub evict_account : String → SessionStore → SessionStore
evict_account account_id s = record s {
  account_to_session = remove account_id s.account_to_session;
  account_to_browser = remove account_id s.account_to_browser;
  browsers = retain_others account_id s.browsers;
}

abbrev pub is_expired : SessionStore → ℕ → AccountSession → Bool
is_expired s now e = ltb (unwrap_or e.timeout_override s.timeout) (now - e.last_accessed)

abbrev pub touched : ℕ → AccountSession → AccountSession
touched now e = record e { last_accessed = now }

-- `get`, on the entry found.
abbrev pub get_entry :
    ℕ → String → Option AccountSession → SessionStore → Option AccountSession × SessionStore
get_entry now token none s = (none, s)
get_entry now token (some e) s =
    if is_expired s now e
    then (none, evict_account e.account_id (record s { sessions = remove token s.sessions }))
    else (some (touched now e), record s { sessions = insert token (touched now e) s.sessions })

unfoldable pub get_session : ℕ → String → SessionStore → Option AccountSession × SessionStore
get_session now token s = get_entry now token (lookup token s.sessions) s

abbrev pub lists : String → Option (List String) → Bool
lists account_id none = false
lists account_id (some accounts) = any (λ id. str_eq id account_id) accounts

abbrev pub maps_to : String → Option String → Bool
maps_to token none = false
maps_to token (some session_id) = str_eq session_id token

unfoldable pub get_account_session :
    ℕ → String → String → String → SessionStore → Option AccountSession × SessionStore
get_account_session now browser_id account_id token s =
    if not (lists account_id (lookup browser_id s.browsers))
    then (none, s)
    else if not (maps_to token (lookup account_id s.account_to_session))
    then (none, s)
    else get_session now token s

-- Takes out the first id that is equal: `position` and `Vec::remove`.
abbrev remove_first : String → List String → List String
remove_first id [] = []
remove_first id (x ∷ xs) = if str_eq x id then xs else x ∷ remove_first id xs

abbrev without_account : String → Option String → Dict (List String) → Dict (List String)
without_account account_id none browsers = browsers
without_account account_id (some browser_id) browsers = elim (lookup browser_id browsers) [
  | none ↦ browsers
  | some accounts ↦ insert browser_id (remove_first account_id accounts) browsers
]

abbrev pub remove_mapped : String → Option String → SessionStore → Bool × SessionStore
remove_mapped account_id none s = (false, s)
remove_mapped account_id (some session_id) s = (
  true,
  record s {
    account_to_session = remove account_id s.account_to_session;
    sessions = remove session_id s.sessions;
    account_to_browser = remove account_id s.account_to_browser;
    browsers = without_account account_id (lookup account_id s.account_to_browser) s.browsers;
  },
)

unfoldable pub remove_account : String → SessionStore → Bool × SessionStore
remove_account account_id s = remove_mapped account_id (lookup account_id s.account_to_session) s

abbrev pub drop_session : Option String → Dict AccountSession → Dict AccountSession
drop_session none sessions = sessions
drop_session (some session_id) sessions = remove session_id sessions

-- One turn of the loop in `remove_browser`.
abbrev pub drop_account : String → SessionStore → SessionStore
drop_account account_id s = record s {
  account_to_browser = remove account_id s.account_to_browser;
  account_to_session = remove account_id s.account_to_session;
  sessions = drop_session (lookup account_id s.account_to_session) s.sessions;
}

unfoldable pub drop_accounts : List String → SessionStore → SessionStore
drop_accounts [] s = s
drop_accounts (account_id ∷ ids) s = drop_accounts ids (drop_account account_id s)

abbrev pub close_found : String → Option (List String) → SessionStore → SessionStore
close_found browser_id none s = s
close_found browser_id (some ids) s =
    drop_accounts ids (record s { browsers = remove browser_id s.browsers })

unfoldable pub remove_browser : String → SessionStore → SessionStore
remove_browser browser_id s = close_found browser_id (lookup browser_id s.browsers) s

-- `retain` in `purge_expired`.
unfoldable pub retain_alive : SessionStore → ℕ → Dict AccountSession → Dict AccountSession
retain_alive s now [] = []
retain_alive s now ((token, e) ∷ sessions) =
    let rest = retain_alive s now sessions in if is_expired s now e then rest else (token, e) ∷ rest

-- The accounts that it collects on the way.
unfoldable pub expired_accounts : SessionStore → ℕ → Dict AccountSession → List String
expired_accounts s now [] = []
expired_accounts s now ((token, e) ∷ sessions) =
    let rest = expired_accounts s now sessions in
    if is_expired s now e then e.account_id ∷ rest else rest

unfoldable pub evict_accounts : List String → SessionStore → SessionStore
evict_accounts [] s = s
evict_accounts (account_id ∷ ids) s = evict_accounts ids (evict_account account_id s)

unfoldable pub purge_expired : ℕ → SessionStore → SessionStore
purge_expired now s =
    evict_accounts (expired_accounts s now s.sessions)
      (record s { sessions = retain_alive s now s.sessions })

abbrev sessions_of : SessionStore → String → Option AccountSession
sessions_of s account_id = elim (lookup account_id s.account_to_session) [
  | none ↦ none
  | some session_id ↦ lookup session_id s.sessions
]

unfoldable pub get_browser_accounts : String → SessionStore → List AccountSession
get_browser_accounts browser_id s =
    filter_map (sessions_of s) (unwrap_or (lookup browser_id s.browsers) [])

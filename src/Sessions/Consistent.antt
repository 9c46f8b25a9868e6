-- ===== src/Sessions/Consistent.antt =====
-- backend/src/auth/session.rs: `check_consistency` for the sessions and the accounts, as an invariant.
use rav.Common.{
  if-both, ℕ, ◌≡◌, refl, inl, inr, String, not, Option, none, some, List, [], ◌∷◌, Bool-cases,
  Option-cases, lookup,
}
use rav.Sessions.{
  AccountSession, SessionStore, Login, new_store, create_browser, add_account_to_browser,
  evict_account, is_expired, touched, get_entry, get_session, lists, maps_to, get_account_session,
  remove_account, drop_account, drop_accounts, close_found, remove_browser, purge_expired,
}
use rav.Sessions.Keyed.{IsKeyed, insert-IsKeyed, remove-IsKeyed}
use rav.Sessions.Purge.{Linked-purge_expired, purge_expired-IsKeyed}
use rav.Sessions.Links.{Linked, Linked-insert, Linked-remove, Linked-touch, Linked-forget}

abbrev pub IsConsistent : SessionStore → Type 0
IsConsistent s = Linked s.sessions s.account_to_session

-- What the program asks of the store: the requests of the routes, `check` being the `get` of a token when the
-- accounts of a browser are listed, and the task that purges it every five minutes. The ids that a login draws
-- at random are in the request.
pub data Request : Type 0 where
  open_browser : String → Request
  log_in : String → String → ℕ → String → Login → Request
  read : ℕ → String → String → String → Request
  log_out : String → Request
  close_browser : String → Request
  check : ℕ → String → Request
  purge : ℕ → Request

module _ (derive_folder_key : String → List ℕ) where
  abbrev pub serve : Request → SessionStore → SessionStore
  serve (open_browser id) s = create_browser id s
  serve (log_in token id now browser_id login) s =
      add_account_to_browser derive_folder_key token id now browser_id login s
  serve (read now browser_id id token) s = (get_account_session now browser_id id token s).1
  serve (log_out id) s = (remove_account id s).1
  serve (close_browser id) s = remove_browser id s
  serve (check now token) s = (get_session now token s).1
  serve (purge now) s = purge_expired now s

  -- The ids that a login draws are new: they are random, of 256 and 128 bits.
  abbrev pub IsFresh : Request → SessionStore → Type 0
  IsFresh (log_in token id now browser_id login) s =
      (lookup token s.sessions ≡ none) × (lookup id s.account_to_session ≡ none)
  IsFresh (open_browser id) s = Unit
  IsFresh (read now browser_id id token) s = Unit
  IsFresh (log_out id) s = Unit
  IsFresh (close_browser id) s = Unit
  IsFresh (check now token) s = Unit
  IsFresh (purge now) s = Unit

  -- The states of a store with a timeout.
  pub data Reach (timeout : ℕ) : SessionStore → Type 0 where
    start : Reach timeout (new_store timeout)
    next :
        (request : Request) (s : SessionStore)
        → Reach timeout s
        → IsFresh request s
        → Reach timeout (serve request s)

  get_entry-IsConsistent :
      (now : ℕ) (token : String) (o : Option AccountSession) (s : SessionStore)
      → lookup token s.sessions ≡ o
      → IsConsistent s
      → IsConsistent (get_entry now token o s).1
  unfolding evict_account
  get_entry-IsConsistent now token none s held h = h
  get_entry-IsConsistent now token (some e) s held h = elim (Bool-cases (is_expired s now e)) [
    | inl x ↦
        rw x (Linked-remove s.sessions s.account_to_session h e.account_id token (h.0 token e held))
    | inr x ↦
        rw x (Linked-touch s.sessions s.account_to_session h token e (touched now e) held refl)
  ]

  get_account_session-IsConsistent :
      (now : ℕ) (browser_id id token : String) (s : SessionStore)
      → IsConsistent s
      → IsConsistent (get_account_session now browser_id id token s).1
  unfolding get_account_session get_session
  get_account_session-IsConsistent now browser_id id token s h =
      elim (Bool-cases (not (lists id (lookup browser_id s.browsers)))) [
        | inl e ↦ rw e h
        | inr e ↦ elim (Bool-cases (not (maps_to token (lookup id s.account_to_session)))) [
          | inl f ↦ rw e (rw f h)
          | inr f ↦ rw e (rw f (get_entry-IsConsistent now token _ s refl h))
        ]
      ]

  remove_account-IsConsistent :
      (id : String) (s : SessionStore) → IsConsistent s → IsConsistent (remove_account id s).1
  unfolding remove_account
  remove_account-IsConsistent id s h = elim (Option-cases (lookup id s.account_to_session)) [
    | inl e ↦ rw e h
    | inr (token, e) ↦ rw e (Linked-remove s.sessions s.account_to_session h id token e)
  ]

  drop_account-IsConsistent :
      (id : String) (s : SessionStore) → IsConsistent s → IsConsistent (drop_account id s)
  drop_account-IsConsistent id s h = elim (Option-cases (lookup id s.account_to_session)) [
    | inl e ↦ rw e (Linked-forget s.sessions s.account_to_session h id e)
    | inr (token, e) ↦ rw e (Linked-remove s.sessions s.account_to_session h id token e)
  ]

  drop_accounts-IsConsistent :
      (ids : List String) (s : SessionStore) → IsConsistent s → IsConsistent (drop_accounts ids s)
  unfolding drop_accounts
  drop_accounts-IsConsistent [] s h = h
  drop_accounts-IsConsistent (id ∷ ids) s h =
      drop_accounts-IsConsistent ids (drop_account id s) (drop_account-IsConsistent id s h)

  close_found-IsConsistent :
      (id : String) (o : Option (List String)) (s : SessionStore)
      → IsConsistent s
      → IsConsistent (close_found id o s)
  close_found-IsConsistent id none s h = h
  close_found-IsConsistent id (some ids) s h = drop_accounts-IsConsistent ids _ h

  serve-IsConsistent :
      (request : Request) (s : SessionStore)
      → IsFresh request s
      → IsKeyed s.sessions
      → IsConsistent s
      → IsConsistent (serve request s)
  unfolding create_browser add_account_to_browser remove_browser get_session
  serve-IsConsistent (open_browser id) s f u h = h
  serve-IsConsistent (log_in token id now browser_id login) s f u h =
      Linked-insert s.sessions s.account_to_session h token _ f.0 f.1
  serve-IsConsistent (read now browser_id id token) s f u h =
      get_account_session-IsConsistent now browser_id id token s h
  serve-IsConsistent (log_out id) s f u h = remove_account-IsConsistent id s h
  serve-IsConsistent (close_browser id) s f u h =
      close_found-IsConsistent id (lookup id s.browsers) s h
  serve-IsConsistent (check now token) s f u h = get_entry-IsConsistent now token _ s refl h
  serve-IsConsistent (purge now) s f u h = Linked-purge_expired now s u h

  get_entry-IsKeyed :
      (now : ℕ) (token : String) (o : Option AccountSession) (s : SessionStore)
      → IsKeyed s.sessions
      → IsKeyed (get_entry now token o s).1.sessions
  unfolding evict_account
  get_entry-IsKeyed now token none s u = u
  get_entry-IsKeyed now token (some e) s u = elim (Bool-cases (is_expired s now e)) [
    | inl x ↦ rw x (remove-IsKeyed token s.sessions u)
    | inr x ↦ rw x (insert-IsKeyed token (touched now e) s.sessions u)
  ]

  get_account_session-IsKeyed :
      (now : ℕ) (browser_id id token : String) (s : SessionStore)
      → IsKeyed s.sessions
      → IsKeyed (get_account_session now browser_id id token s).1.sessions
  unfolding get_account_session get_session
  get_account_session-IsKeyed now browser_id id token s u =
      if-both (λ (r : Option AccountSession × SessionStore). IsKeyed r.1.sessions)
        (not (lists id (lookup browser_id s.browsers))) u
        (if-both (λ (r : Option AccountSession × SessionStore). IsKeyed r.1.sessions)
          (not (maps_to token (lookup id s.account_to_session))) u
          (get_entry-IsKeyed now token _ s u))

  remove_account-IsKeyed :
      (id : String) (s : SessionStore)
      → IsKeyed s.sessions
      → IsKeyed (remove_account id s).1.sessions
  unfolding remove_account
  remove_account-IsKeyed id s u = elim (Option-cases (lookup id s.account_to_session)) [
    | inl e ↦ rw e u
    | inr (token, e) ↦ rw e (remove-IsKeyed token s.sessions u)
  ]

  drop_accounts-IsKeyed :
      (ids : List String) (s : SessionStore)
      → IsKeyed s.sessions
      → IsKeyed (drop_accounts ids s).sessions
  unfolding drop_accounts
  drop_accounts-IsKeyed [] s u = u
  drop_accounts-IsKeyed (id ∷ ids) s u =
      drop_accounts-IsKeyed ids (drop_account id s)
        (elim (Option-cases (lookup id s.account_to_session)) [
          | inl e ↦ rw e u
          | inr (token, e) ↦ rw e (remove-IsKeyed token s.sessions u)
        ])

  close_found-IsKeyed :
      (id : String) (o : Option (List String)) (s : SessionStore)
      → IsKeyed s.sessions
      → IsKeyed (close_found id o s).sessions
  close_found-IsKeyed id none s u = u
  close_found-IsKeyed id (some ids) s u = drop_accounts-IsKeyed ids _ u

  serve-IsKeyed :
      (request : Request) (s : SessionStore)
      → IsKeyed s.sessions
      → IsKeyed (serve request s).sessions
  unfolding create_browser add_account_to_browser remove_browser get_session
  serve-IsKeyed (open_browser id) s u = u
  serve-IsKeyed (log_in token id now browser_id login) s u = insert-IsKeyed token _ s.sessions u
  serve-IsKeyed (read now browser_id id token) s u =
      get_account_session-IsKeyed now browser_id id token s u
  serve-IsKeyed (log_out id) s u = remove_account-IsKeyed id s u
  serve-IsKeyed (close_browser id) s u = close_found-IsKeyed id (lookup id s.browsers) s u
  serve-IsKeyed (check now token) s u = get_entry-IsKeyed now token _ s u
  serve-IsKeyed (purge now) s u = purge_expired-IsKeyed now s u

  Reach-IsKeyed : (timeout : ℕ) (s : SessionStore) → Reach timeout s → IsKeyed s.sessions
  Reach-IsKeyed timeout s start = tt
  Reach-IsKeyed timeout s (next request before r fresh) =
      serve-IsKeyed request before (Reach-IsKeyed timeout before r)

  -- In every store that the routes and the purging task lead to, if the ids that logins draw are new, each
  -- session's account leads back to the session's token, and each account leads to a session that is its own.
  pub Reach-IsConsistent : (timeout : ℕ) (s : SessionStore) → Reach timeout s → IsConsistent s
  unfolding lookup
  Reach-IsConsistent timeout s start = ((λ t e h. cc), λ id t h. cc)
  Reach-IsConsistent timeout s (next request before r fresh) =
      serve-IsConsistent request before fresh (Reach-IsKeyed timeout before r)
        (Reach-IsConsistent timeout before r)

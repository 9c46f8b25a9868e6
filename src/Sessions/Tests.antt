-- ===== src/Sessions/Tests.antt =====
-- The session store on concrete requests.
use rav.Common.{ℕ, ◌≡◌, ◌≢◌, ◌↔◌, refl, String, true, none, some, List, [], lookup, insert}
use rav.Sessions.{
  ServerEndpoint, AccountSession, SessionStore, Login, new_store, new_session, create_browser,
  add_account_to_browser, touched, get_session, get_account_session, remove_account, lists,
  purge_expired, retain_alive, evict_accounts, expired_accounts, evict_account,
}
use rav.Sessions.Consistent.{
  IsConsistent, open_browser, log_in, Reach, start, next, serve, Reach-IsConsistent,
}
use rav.Sessions.Access.{Live, get_account_session-Live, remove_account-closes}

abbrev server : ServerEndpoint
server = record { host = "mail.x"; port = 993; tls = true }

abbrev ann : Login
ann = record { email = "ann@x"; password = "pw"; user_hash = "h1"; imap = server; smtp = server }

abbrev no_key : String → List ℕ
no_key _ = []

abbrev logged_in : SessionStore
logged_in =
    serve no_key (log_in "t1" "a1" 100 "b1" ann) (serve no_key (open_browser "b1") (new_store 60))

logged_in-Reach : Reach no_key 60 logged_in
unfolding lookup create_browser
logged_in-Reach =
    next (log_in "t1" "a1" 100 "b1" ann) _ (next (open_browser "b1") _ start tt) (refl, refl)

Reach-IsConsistent_example : IsConsistent logged_in
Reach-IsConsistent_example = Reach-IsConsistent no_key 60 logged_in logged_in-Reach

abbrev ann_session : AccountSession
ann_session = new_session no_key "t1" "a1" 100 ann

read_at_150 : (get_account_session 150 "b1" "a1" "t1" logged_in).0 ≡ some (touched 150 ann_session)
unfolding get_account_session get_session lookup insert create_browser add_account_to_browser
read_at_150 = refl

get_account_session-Live_example :
    ((get_account_session 150 "b1" "a1" "t1" logged_in).0 ≡ some (touched 150 ann_session)) ↔ (
      (lists "a1" (lookup "b1" logged_in.browsers) ≡ true)
      × (lookup "a1" logged_in.account_to_session ≡ some "t1")
      × Live 150 "t1" logged_in (touched 150 ann_session)
      × ((touched 150 ann_session).account_id ≡ "a1"))
get_account_session-Live_example =
    get_account_session-Live 150 "b1" "a1" "t1" logged_in (touched 150 ann_session)
      (Reach-IsConsistent no_key 60 logged_in logged_in-Reach)

ann_mapped : lookup "a1" logged_in.account_to_session ≡ some "t1"
unfolding lookup insert create_browser add_account_to_browser
ann_mapped = refl

remove_account-closes_example :
    ((now : ℕ) (browser_id other : String)
      → (get_account_session now browser_id "a1" other (remove_account "a1" logged_in).1).0 ≡ none)
    × (lookup "t1" (remove_account "a1" logged_in).1.sessions ≡ none)
    × ((other t : String)
        → other ≢ "a1"
        → lookup other logged_in.account_to_session ≡ some t
        → (lookup other (remove_account "a1" logged_in).1.account_to_session ≡ some t)
          × (lookup t (remove_account "a1" logged_in).1.sessions ≡ lookup t logged_in.sessions))
remove_account-closes_example =
    remove_account-closes "a1" "t1" logged_in
      (Reach-IsConsistent no_key 60 logged_in logged_in-Reach) ann_mapped

expired_at_200 : (get_session 200 "t1" logged_in).0 ≡ none
unfolding get_session lookup insert create_browser add_account_to_browser
expired_at_200 = refl

alive_at_150 : (get_session 150 "t1" logged_in).0 ≡ some (touched 150 ann_session)
unfolding get_session lookup insert create_browser add_account_to_browser
alive_at_150 = refl

purged_at_200 :
    get_session 200 "t1" (purge_expired 200 logged_in) ≡ (none, purge_expired 200 logged_in)
unfolding get_session lookup insert create_browser add_account_to_browser purge_expired retain_alive
    evict_accounts expired_accounts evict_account
purged_at_200 = refl

-- ===== src/Sessions/Purge.antt =====
-- backend/src/auth/session.rs: what `purge_expired` leaves.
use rav.Common.{
  ℕ, ◌≡◌, refl, ap, sym, subst, ◌∙◌, inl, inr, false, Option, none, some, List, [], ◌∷◌, arith, any,
  Bool-cases, String, str_eq, if◌then◌else◌, lookup, lookup-remove,
}
use rav.Sessions.{
  AccountSession, SessionStore, is_expired, evict_account, retain_alive, expired_accounts,
  evict_accounts, purge_expired,
}
use rav.Sessions.Keyed.{IsKeyed}
use rav.Sessions.Expired.{
  alive_only, lookup-retain_alive, expired-listed, listed-expired, retain_alive-IsKeyed,
}
use rav.Sessions.Links.{Linked}

sessions-evict_accounts :
    (ids : List String) (s : SessionStore) → (evict_accounts ids s).sessions ≡ s.sessions
unfolding evict_accounts evict_account
sessions-evict_accounts [] s = refl
sessions-evict_accounts (id ∷ ids) s = sessions-evict_accounts ids (evict_account id s)

lookup-evict_accounts :
    (ids : List String) (id : String) (s : SessionStore)
    → lookup id (evict_accounts ids s).account_to_session
      ≡ (if any (λ other. str_eq other id) ids then none else lookup id s.account_to_session)
unfolding evict_accounts evict_account
lookup-evict_accounts [] id s = refl
lookup-evict_accounts (gone ∷ ids) id s = ground (
  arith,
  lookup-evict_accounts ids id (evict_account gone s),
  lookup-remove gone id s.account_to_session,
)

sessions-purge_expired :
    (now : ℕ) (s : SessionStore) → (purge_expired now s).sessions ≡ retain_alive s now s.sessions
unfolding purge_expired
sessions-purge_expired now s = sessions-evict_accounts (expired_accounts s now s.sessions) _

lookup-purge_expired :
    (now : ℕ) (s : SessionStore) (id : String)
    → lookup id (purge_expired now s).account_to_session ≡ (
        if any (λ other. str_eq other id) (expired_accounts s now s.sessions)
        then none
        else lookup id s.account_to_session)
unfolding purge_expired
lookup-purge_expired now s id = lookup-evict_accounts (expired_accounts s now s.sessions) id _

alive_only-some :
    (s : SessionStore) (now : ℕ) (o : Option AccountSession) (e : AccountSession)
    → alive_only s now o ≡ some e
    → (o ≡ some e) × (is_expired s now e ≡ false)
alive_only-some s now none e h = cc
alive_only-some s now (some f) e h = elim (Bool-cases (is_expired s now f)) [
  | inl x ↦ cc (rw x at h)
  | inr x ↦
      let same : f ≡ e = cc (rw x at h) in (ap some same, ap (is_expired s now) (sym same) ∙ x)
]

-- After `purge_expired` a token reads its session as before it if the session is not expired, and else nothing.
pub lookup-purge_expired_sessions :
    (now : ℕ) (s : SessionStore) (token : String)
    → IsKeyed s.sessions
    → lookup token (purge_expired now s).sessions ≡ alive_only s now (lookup token s.sessions)
lookup-purge_expired_sessions now s token keyed =
    ap (lookup token) (sessions-purge_expired now s)
    ∙ lookup-retain_alive s now token s.sessions keyed

module _ (now : ℕ) (s : SessionStore) (keyed : IsKeyed s.sessions)
    (l : Linked s.sessions s.account_to_session) where
  -- The account of a session that is not expired is not evicted.
  alive-unlisted :
      (token : String) (e : AccountSession)
      → lookup token s.sessions ≡ some e
      → is_expired s now e ≡ false
      → any (λ other. str_eq other e.account_id) (expired_accounts s now s.sessions) ≡ false
  alive-unlisted token e held alive =
      elim (Bool-cases
        (any (λ other. str_eq other e.account_id) (expired_accounts s now s.sessions))) [
          | inr e' ↦ e'
          | inl listed ↦
              let (t, g, held', old, own) =
                listed-expired s now e.account_id s.sessions keyed listed in
              let there = l.0 t g held' in
              let here = l.0 token e held in
              let one : t ≡ token =
                same_token t token
                  (sym there ∙ ap (λ i. lookup i s.account_to_session) own ∙ here) in
              let same : g ≡ e =
                same_session g e (sym held' ∙ ap (λ i. lookup i s.sessions) one ∙ held) in
              listed ∙ (sym old ∙ ap (is_expired s now) same ∙ alive)
        ]
    where
      same_token : (a b : String) → ◌≡◌ {A = Option String} (some a) (some b) → a ≡ b
      same_token a b h = cc

      same_session :
          (a b : AccountSession) → ◌≡◌ {A = Option AccountSession} (some a) (some b) → a ≡ b
      same_session a b h = cc

  -- After `purge_expired` the sessions and the accounts still lead to each other.
  pub Linked-purge_expired :
      Linked (purge_expired now s).sessions (purge_expired now s).account_to_session
  Linked-purge_expired = (
    λ token e h.
        let (held, alive) =
          alive_only-some s now _ e (sym (lookup-purge_expired_sessions now s token keyed) ∙ h) in
        lookup-purge_expired now s e.account_id
        ∙ rw (alive-unlisted token e held alive) (l.0 token e held),
    λ id token h. back id token (sym (lookup-purge_expired now s id) ∙ h),
  )
    where
      back :
          (id token : String)
          → (if any (λ other. str_eq other id) (expired_accounts s now s.sessions)
              then none
              else lookup id s.account_to_session)
            ≡ some token
          → (e : AccountSession) × (lookup token (purge_expired now s).sessions ≡ some e)
            × (e.account_id ≡ id)
      back id token h =
          elim (Bool-cases (any (λ other. str_eq other id) (expired_accounts s now s.sessions))) [
            | inl listed ↦ cc (rw listed at h)
            | inr unlisted ↦
                let (e, held, own) = l.1 id token (rw unlisted at h) in
                let alive : is_expired s now e ≡ false = elim (Bool-cases (is_expired s now e)) [
                  | inr x ↦ x
                  | inl x ↦
                      let listed =
                        ap (λ i. any (λ other. str_eq other i) (expired_accounts s now s.sessions))
                          (sym own)
                        ∙ expired-listed s now token e s.sessions held x in
                      x ∙ (sym listed ∙ unlisted)
                ] in
                (e, lookup-purge_expired_sessions now s token keyed ∙ rw held (rw alive refl), own)
          ]

pub purge_expired-IsKeyed :
    (now : ℕ) (s : SessionStore) → IsKeyed s.sessions → IsKeyed (purge_expired now s).sessions
purge_expired-IsKeyed now s h =
    subst IsKeyed (sym (sessions-purge_expired now s)) (retain_alive-IsKeyed s now s.sessions h)

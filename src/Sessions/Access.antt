-- ===== src/Sessions/Access.antt =====
-- backend/src/auth/session.rs: who reads which session, and for how long.
use rav.Common.{
  ℕ, ◌+◌, ◌≤◌, ◌≡◌, ◌≢◌, ◌↔◌, refl, ap, subst, sym, ◌∙◌, inl, inr, String, true, false, Option,
  none, some, arith, Bool-cases, Option-cases, eq_iff, eq_refl, lookup, remove, lookup-insert,
  lookup-remove, unwrap_or,
}
use rav.Sessions.{
  AccountSession, SessionStore, evict_account, is_expired, touched, get_entry, get_session, lists,
  maps_to, get_account_session, remove_account,
}
use rav.Sessions.Consistent.{IsConsistent}

maps_to_iff : (token : String) (o : Option String) → (maps_to token o ≡ true) ↔ (o ≡ some token)
maps_to_iff token none = (λ e. cc, λ e. cc)
maps_to_iff token (some t) = ground (arith, eq_iff t token)

-- The session that a live entry gives.
abbrev pub Live : ℕ → String → SessionStore → AccountSession → Type 0
Live now token s e =
    (f : AccountSession) × (lookup token s.sessions ≡ some f)
    × (is_expired s now f ≡ false)
    × (e ≡ touched now f)

get_entry-Live :
    (now : ℕ) (token : String) (o : Option AccountSession) (s : SessionStore) (e : AccountSession)
    → lookup token s.sessions ≡ o
    → ((get_entry now token o s).0 ≡ some e) ↔ Live now token s e
get_entry-Live now token none s e held = (λ k. cc, λ l. ground (arith, l.1))
get_entry-Live now token (some f) s e held = elim (Bool-cases (is_expired s now f)) [
  | inl x ↦ rw x (λ k. cc, λ l. ground (arith, l.1, l.2, x))
  | inr x ↦ rw x (λ k. (f, held, x, ground arith), λ l. ground (arith, l.1, l.3))
]

get_session-Live :
    (now : ℕ) (token : String) (s : SessionStore) (e : AccountSession)
    → ((get_session now token s).0 ≡ some e) ↔ Live now token s e
unfolding get_session
get_session-Live now token s e = get_entry-Live now token _ s e refl

-- A request reads a session exactly if its browser lists the account, the token is the one of the
-- account, and the token's session is not past its timeout; what it reads is that session, marked as
-- used now, and in a consistent store it is the account's own.
pub get_account_session-Live :
    (now : ℕ) (browser_id id token : String) (s : SessionStore) (e : AccountSession)
    → IsConsistent s
    → ((get_account_session now browser_id id token s).0 ≡ some e) ↔ (
        (lists id (lookup browser_id s.browsers) ≡ true)
        × (lookup id s.account_to_session ≡ some token)
        × Live now token s e
        × (e.account_id ≡ id))
unfolding get_account_session
get_account_session-Live now browser_id id token s e h = (there, back)
  where
    mapped :
        (maps_to token (lookup id s.account_to_session) ≡ true)
        ↔ (lookup id s.account_to_session ≡ some token)
    mapped = maps_to_iff token (lookup id s.account_to_session)

    owned : lookup id s.account_to_session ≡ some token → Live now token s e → e.account_id ≡ id
    owned a (f, found, alive, same) =
        let (g, k, owner) = h.1 id token a in ground (arith, found, same, k, owner)

    there :
        (get_account_session now browser_id id token s).0 ≡ some e
        → (lists id (lookup browser_id s.browsers) ≡ true)
          × (lookup id s.account_to_session ≡ some token)
          × Live now token s e
          × (e.account_id ≡ id)
    there k = elim (Bool-cases (lists id (lookup browser_id s.browsers))) [
      | inr l ↦ cc (rw l at k)
      | inl l ↦ elim (Bool-cases (maps_to token (lookup id s.account_to_session))) [
        | inr m ↦ cc (rw m at (rw l at k))
        | inl m ↦
            let live = (get_session-Live now token s e).0 (rw m at (rw l at k)) in
            (l, mapped.0 m, live, owned (mapped.0 m) live)
      ]
    ]

    back :
        (lists id (lookup browser_id s.browsers) ≡ true)
          × (lookup id s.account_to_session ≡ some token)
          × Live now token s e
          × (e.account_id ≡ id)
        → (get_account_session now browser_id id token s).0 ≡ some e
    back (l, a, live, owner) = rw (l, mapped.1 a) ((get_session-Live now token s e).1 live)

closed :
    (now : ℕ) (browser_id id token : String) (s : SessionStore)
    → lookup id s.account_to_session ≡ none
    → (get_account_session now browser_id id token s).0 ≡ none
unfolding get_account_session
closed now browser_id id token s h = elim (Bool-cases (lists id (lookup browser_id s.browsers))) [
  | inl l ↦ rw l (rw h refl)
  | inr l ↦ rw l refl
]

-- After a logout no browser and no token reads the account, its token reads nothing, and the session of
-- every other account is as it was.
pub remove_account-closes :
    (id token : String) (s : SessionStore)
    → IsConsistent s
    → lookup id s.account_to_session ≡ some token
    → ((now : ℕ) (browser_id other : String)
        → (get_account_session now browser_id id other (remove_account id s).1).0 ≡ none)
      × (lookup token (remove_account id s).1.sessions ≡ none)
      × ((other t : String)
          → other ≢ id
          → lookup other s.account_to_session ≡ some t
          → (lookup other (remove_account id s).1.account_to_session ≡ some t)
            × (lookup t (remove_account id s).1.sessions ≡ lookup t s.sessions))
unfolding remove_account get_account_session
remove_account-closes id token s h held = rw held (
  (λ now browser_id other.
      closed now browser_id id other _
        (lookup-remove id id s.account_to_session ∙ rw (eq_refl id) refl)),
  lookup-remove token token s.sessions ∙ rw (eq_refl token) refl,
  λ other t differ k. (
    ground (arith, lookup-remove id other s.account_to_session, eq_iff id other),
    apart other t differ k,
  ),
)
  where
    apart :
        (other t : String)
        → other ≢ id
        → lookup other s.account_to_session ≡ some t
        → lookup t (remove token s.sessions) ≡ lookup t s.sessions
    apart other t differ k =
        let (e, found, owner) = h.1 other t k in
        let (f, found', owner') = h.1 id token held in
        ground
          (arith, lookup-remove token t s.sessions, eq_iff token t, found, owner, found', owner')

-- A token for which a read found nothing, its session being absent or past its timeout, reads nothing in
-- the store after it, at any time.
pub expired_for_good :
    (now later : ℕ) (token : String) (s : SessionStore)
    → (get_session now token s).0 ≡ none
    → (get_session later token (get_session now token s).1).0 ≡ none
unfolding get_session evict_account
expired_for_good now later token s h = elim (Option-cases (lookup token s.sessions)) [
  | inl n ↦ rw n (rw n refl)
  | inr (f, e) ↦ elim (Bool-cases (is_expired s now f)) [
    | inl x ↦ rw e (rw x (rw (lookup-remove token token s.sessions, eq_refl token) refl))
    | inr x ↦ absurd (ground (arith, h, e, x))
  ]
]

-- A session that is read is read again in the store after it, up to its timeout after the first read.
pub read_again :
    (now later : ℕ) (token : String) (s : SessionStore) (e : AccountSession)
    → (get_session now token s).0 ≡ some e
    → later ≤ now + unwrap_or e.timeout_override s.timeout
    → (get_session later token (get_session now token s).1).0 ≡ some (touched later e)
unfolding get_session
read_again now later token s e h k =
    let (f, held, x, same) = (get_session-Live now token s e).0 h in
    let limit : later ≤ now + unwrap_or f.timeout_override s.timeout =
      subst (λ y. later ≤ now + unwrap_or y s.timeout) (ap (λ y. y.timeout_override) same) k in
    let alive : is_expired s later (touched now f) ≡ false = ground (arith, limit) in
    rw held (
      rw x (
        rw (lookup-insert token token (touched now f) s.sessions, eq_refl token)
          (rw alive (ap (λ y. some (touched later y)) (sym same)))))

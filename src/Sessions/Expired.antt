-- ===== src/Sessions/Expired.antt =====
-- backend/src/auth/session.rs: the sessions that `purge_expired` keeps, and the accounts that it collects.
use rav.Common.{
  ℕ, ◌≡◌, refl, ap, sym, ◌∙◌, inl, inr, true, Option, none, some, [], ◌∷◌, arith, any, Bool-cases,
  String, str_eq, eq_iff, eq_refl, if◌then◌else◌, Dict, lookup,
}
use rav.Sessions.{AccountSession, SessionStore, is_expired, retain_alive, expired_accounts}
use rav.Sessions.Keyed.{IsKeyed}

-- A session is kept if it is there and not expired.
abbrev pub alive_only : SessionStore → ℕ → Option AccountSession → Option AccountSession
alive_only s now none = none
alive_only s now (some e) = if is_expired s now e then none else some e

pub lookup-retain_alive :
    (s : SessionStore) (now : ℕ) (token : String) (sessions : Dict AccountSession)
    → IsKeyed sessions
    → lookup token (retain_alive s now sessions) ≡ alive_only s now (lookup token sessions)
unfolding lookup retain_alive
lookup-retain_alive s now token [] h = refl
lookup-retain_alive s now token ((key, e) ∷ sessions) h =
    let ih = lookup-retain_alive s now token sessions h.1 in
    elim (Bool-cases (str_eq key token)) [
      | inl same ↦
          let absent : lookup token sessions ≡ none =
            ap (λ t. lookup t sessions) (sym ((eq_iff key token).0 same)) ∙ h.0 in
          elim (Bool-cases (is_expired s now e)) [
            | inl x ↦ rw (x, same) (ih ∙ ap (alive_only s now) absent ∙ rw x refl)
            | inr x ↦ rw (x, same) (rw x refl)
          ]
      | inr differs ↦ elim (Bool-cases (is_expired s now e)) [
        | inl x ↦ rw (x, differs) ih
        | inr x ↦ rw (x, differs) ih
      ]
    ]

-- A session that expired names its account among those to evict.
pub expired-listed :
    (s : SessionStore) (now : ℕ) (token : String) (e : AccountSession)
    (sessions : Dict AccountSession)
    → lookup token sessions ≡ some e
    → is_expired s now e ≡ true
    → any (λ id. str_eq id e.account_id) (expired_accounts s now sessions) ≡ true
unfolding lookup expired_accounts
expired-listed s now token e [] held x = cc
expired-listed s now token e ((key, f) ∷ sessions) held x = elim (Bool-cases (str_eq key token)) [
  | inl same ↦
      let found : f ≡ e = cc (rw same at held) in
      let old : is_expired s now f ≡ true = ap (is_expired s now) found ∙ x in
      rw old (ground (arith, eq_iff f.account_id e.account_id, ap (λ y. y.account_id) found))
  | inr differs ↦
      let ih = expired-listed s now token e sessions (rw differs at held) x in
      elim (Bool-cases (is_expired s now f)) [
        | inl old ↦ rw old (ground (arith, ih))
        | inr young ↦ rw young ih
      ]
]

-- A session of the account that expired.
abbrev pub HasExpired : SessionStore → ℕ → String → Dict AccountSession → Type 0
HasExpired s now id sessions =
    (token : String) × (e : AccountSession) × (lookup token sessions ≡ some e)
    × (is_expired s now e ≡ true)
    × (e.account_id ≡ id)

HasExpired-cons :
    (s : SessionStore) (now : ℕ) (id key : String) (f : AccountSession)
    (sessions : Dict AccountSession)
    → lookup key sessions ≡ none
    → HasExpired s now id sessions
    → HasExpired s now id ((key, f) ∷ sessions)
unfolding lookup
HasExpired-cons s now id key f sessions absent (token, e, held, x, own) =
    elim (Bool-cases (str_eq key token)) [
      | inl same ↦
          let gone = ap (λ t. lookup t sessions) (sym ((eq_iff key token).0 same)) ∙ absent in
          absurd (none_some e (sym gone ∙ held))
      | inr differs ↦ (token, e, rw differs held, x, own)
    ]
  where
    none_some : (a : AccountSession) → ◌≡◌ {A = Option AccountSession} none (some a) → ⊥
    none_some a h = cc

-- An account to evict has a session that expired.
pub listed-expired :
    (s : SessionStore) (now : ℕ) (id : String) (sessions : Dict AccountSession)
    → IsKeyed sessions
    → any (λ other. str_eq other id) (expired_accounts s now sessions) ≡ true
    → HasExpired s now id sessions
unfolding lookup expired_accounts
listed-expired s now id [] h listed = cc
listed-expired s now id ((key, f) ∷ sessions) h listed = elim (Bool-cases (is_expired s now f)) [
  | inr young ↦
      HasExpired-cons s now id key f sessions h.0
        (listed-expired s now id sessions h.1 (rw young at listed))
  | inl old ↦ elim (Bool-cases (str_eq f.account_id id)) [
    | inl same ↦ (key, f, rw (eq_refl key) refl, old, (eq_iff f.account_id id).0 same)
    | inr other ↦
        HasExpired-cons s now id key f sessions h.0
          (listed-expired s now id sessions h.1 (rw other at (rw old at listed)))
  ]
]

retain_alive-none :
    (s : SessionStore) (now : ℕ) (token : String) (sessions : Dict AccountSession)
    → lookup token sessions ≡ none
    → lookup token (retain_alive s now sessions) ≡ none
unfolding lookup retain_alive
retain_alive-none s now token [] h = refl
retain_alive-none s now token ((key, e) ∷ sessions) h =
    ground (arith, h, retain_alive-none s now token sessions)

pub retain_alive-IsKeyed :
    (s : SessionStore) (now : ℕ) (sessions : Dict AccountSession)
    → IsKeyed sessions
    → IsKeyed (retain_alive s now sessions)
unfolding retain_alive
retain_alive-IsKeyed s now [] h = tt
retain_alive-IsKeyed s now ((key, e) ∷ sessions) h =
    let rest = retain_alive-IsKeyed s now sessions h.1 in
    elim (Bool-cases (is_expired s now e)) [
      | inl x ↦ rw x rest
      | inr x ↦ rw x (retain_alive-none s now key sessions h.0, rest)
    ]

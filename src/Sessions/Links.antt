-- ===== src/Sessions/Links.antt =====
-- backend/src/auth/session.rs: the two maps that link sessions and accounts, and changes of both.
use rav.Common.{
  ◌≡◌, inl, inr, String, none, some, arith, Bool-cases, str_eq, eq_iff, Dict, lookup, insert,
  remove, lookup-insert, lookup-remove,
}
use rav.Sessions.{AccountSession}

-- A session's account leads back to its token, and an account leads to a session of that account.
abbrev pub Linked : Dict AccountSession → Dict String → Type 0
Linked sessions accounts =
    ((token : String) (e : AccountSession)
      → lookup token sessions ≡ some e
      → lookup e.account_id accounts ≡ some token)
    × ((id token : String)
        → lookup id accounts ≡ some token
        → (e : AccountSession) × (lookup token sessions ≡ some e) × (e.account_id ≡ id))

module _ (sessions : Dict AccountSession) (accounts : Dict String)
    (l : Linked sessions accounts) where
  pub Linked-insert :
      (token : String) (e : AccountSession)
      → lookup token sessions ≡ none
      → lookup e.account_id accounts ≡ none
      → Linked (insert token e sessions) (insert e.account_id token accounts)
  Linked-insert token e no_session no_account = (
    λ t f h. ground (
      arith,
      lookup-insert token t e sessions,
      lookup-insert e.account_id f.account_id token accounts,
      eq_iff token t,
      eq_iff e.account_id f.account_id,
      l.0 t f,
      no_account,
    ),
    λ id t h. elim (Bool-cases (str_eq e.account_id id)) [
      | inl same ↦ (
        e,
        ground (
          arith,
          lookup-insert token t e sessions,
          lookup-insert e.account_id id token accounts,
          eq_iff token t,
        ),
        (eq_iff e.account_id id).0 same,
      )
      | inr other ↦
          let found : lookup id accounts ≡ some t =
            ground (arith, lookup-insert e.account_id id token accounts) in
          let (f, k, owner) = l.1 id t found in
          (f, ground (arith, lookup-insert token t e sessions, eq_iff token t, no_session), owner)
    ],
  )

  pub Linked-remove :
      (id token : String)
      → lookup id accounts ≡ some token
      → Linked (remove token sessions) (remove id accounts)
  Linked-remove id token held = (
    λ t f h. ground (
      arith,
      lookup-remove token t sessions,
      lookup-remove id f.account_id accounts,
      eq_iff token t,
      eq_iff id f.account_id,
      l.0 t f,
    ),
    λ other t h.
        let found : lookup other accounts ≡ some t =
          ground (arith, lookup-remove id other accounts, eq_iff id other) in
        let (f, k, owner) = l.1 other t found in
        let (e, k', owner') = l.1 id token held in
        (
          f,
          ground (
            arith,
            lookup-remove token t sessions,
            lookup-remove id other accounts,
            eq_iff token t,
            eq_iff id other,
            k,
            k',
            owner,
            owner',
          ),
          owner,
        ),
  )

  pub Linked-touch :
      (token : String) (e f : AccountSession)
      → lookup token sessions ≡ some e
      → f.account_id ≡ e.account_id
      → Linked (insert token f sessions) accounts
  Linked-touch token e f held same = (
    λ t g h. ground (arith, lookup-insert token t f sessions, eq_iff token t, l.0 t g, l.0 token e),
    λ id t h.
        let (g, k, owner) = l.1 id t h in
        elim (Bool-cases (str_eq token t)) [
          | inl e' ↦ (
            f,
            ground (arith, lookup-insert token t f sessions),
            ground (arith, eq_iff token t, k, owner),
          )
          | inr e' ↦ (g, ground (arith, lookup-insert token t f sessions, k), owner)
        ],
  )

  pub Linked-forget :
      (id : String) → lookup id accounts ≡ none → Linked sessions (remove id accounts)
  Linked-forget id gone = (
    λ t f h.
        ground (arith, lookup-remove id f.account_id accounts, eq_iff id f.account_id, l.0 t f),
    λ other t h. l.1 other t (ground (arith, lookup-remove id other accounts, eq_iff id other)),
  )

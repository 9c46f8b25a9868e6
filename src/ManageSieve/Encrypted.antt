-- ===== src/ManageSieve/Encrypted.antt =====
-- backend/src/sieve/client.rs: what is written to a stream that is not encrypted.
use rav.Common.{
  ◌≡◌, refl, ◌⊎◌, inl, inr, Bool, true, false, List, [], ◌∷◌, All, All-append, if◌then◌else◌, Text,
  Result, ok, err,
}
use rav.ManageSieve.{
  Command, Written, request_starttls, SieveError, expect_ok, read_capabilities, after_answer,
  no_starttls, Outcome, run_session, session_commands, secure_session, do_push,
}

-- The request for TLS, or a command under TLS.
abbrev pub IsPrivate : Written → Type 0
IsPrivate w = (w.command ≡ request_starttls) ⊎ (w.encrypted ≡ true)

after_answer-IsPrivate {ℓ} :
    {A : Type ℓ} (answer : Result A SieveError) (log : List Written) (next : A → Outcome)
    → All IsPrivate log
    → ((a : A) → All IsPrivate (next a).1)
    → All IsPrivate (after_answer answer log next).1
after_answer-IsPrivate (err e) log next h hn = h
after_answer-IsPrivate (ok a) log next h hn = hn a

module _ (trim : Text → Text) where
  run_session-IsPrivate :
      (commands : List Command) (lines : List Text) (log : List Written)
      → All IsPrivate log
      → All IsPrivate (run_session trim true commands lines log).1
  unfolding run_session
  run_session-IsPrivate [] lines log h = All-append IsPrivate log _ h (inr refl, tt)
  run_session-IsPrivate (command ∷ commands) lines log h =
      let longer = All-append IsPrivate log _ h (inr refl, tt) in
      after_answer-IsPrivate (expect_ok trim lines) _ _ longer
        (λ rest. run_session-IsPrivate commands rest _ longer)

  secure_session-IsPrivate :
      (tls_connects : Bool) (answer : Result (List Text) SieveError) (lines : List Text)
      (log : List Written)
      → All IsPrivate log
      → All IsPrivate (secure_session trim tls_connects answer lines log).1
  secure_session-IsPrivate tls_connects (err e) lines log h = h
  secure_session-IsPrivate false (ok rest) lines log h = h
  secure_session-IsPrivate true (ok rest) lines log h =
      after_answer-IsPrivate (read_capabilities trim false lines) log _ h
        (λ caps. run_session-IsPrivate session_commands caps.1 log h)

  -- Unless plaintext is allowed, all that a push writes before TLS is the request for TLS, whatever the
  -- server says.
  pub do_push-IsPrivate :
      (plain_lines : List Text) (tls_connects : Bool) (secure_lines : List Text)
      → All IsPrivate (do_push trim false plain_lines tls_connects secure_lines).1
  unfolding do_push
  do_push-IsPrivate plain_lines tls_connects secure_lines =
      after_answer-IsPrivate (read_capabilities trim false plain_lines) [] _ tt (λ caps.
        by_offer caps.0 (secure_session trim tls_connects (expect_ok trim caps.1) secure_lines _) (
          secure_session-IsPrivate tls_connects (expect_ok trim caps.1) secure_lines _
            (inl refl, tt)))
    where
      by_offer :
          (offered : Bool) (x : Outcome)
          → All IsPrivate x.1
          → All IsPrivate (if offered then x else (err no_starttls, [])).1
      by_offer true x h = h
      by_offer false x h = tt

-- ===== src/ManageSieve.antt =====
-- backend/src/sieve/client.rs and backend/src/sieve/protocol.rs: the upload of a script, as the commands
-- that the client writes, each with whether the stream is encrypted. What the server says is the list
-- of lines of each stream, and the outcome of the TLS handshake, which are arguments; `str::trim` is a
-- parameter. Write errors, the timeout and the list of SASL mechanisms, which nothing reads, are left out.
pub mod Encrypted
mod Tests
use rav.Common.{
  ℕ, Bool, true, false, not, ◌||◌, Option, none, some, List, [], ◌∷◌, ◌++◌, ◌==◌, if◌then◌else◌,
  Text, text_eq, codes, starts_with, Result, ok, err,
}

pub data Command : Type 0 where
  request_starttls : Command
  authenticate_plain : Command
  put_script : Command
  set_active : Command
  logout : Command

pub record Written : Type 0 where
  pub encrypted : Bool
  pub command : Command

pub data SieveError : Type 0 where
  connection_closed : SieveError
  server_error : Text → SieveError
  connect_failed : SieveError
  handshake_failed : SieveError
  no_starttls : SieveError

abbrev pub is_refusal : Text → Bool
is_refusal line = starts_with line (codes "NO") || starts_with line (codes "BYE")

abbrev pub Outcome : Type 0
Outcome = Result {0, 0} Unit SieveError × List Written

-- `?` after some commands were written.
abbrev pub after_answer {ℓ} :
    {A : Type ℓ} → Result A SieveError → List Written → (A → Outcome) → Outcome
after_answer (err e) log next = (err e, log)
after_answer (ok a) log next = next a

abbrev pub session_commands : List Command
session_commands = authenticate_plain ∷ put_script ∷ set_active ∷ []

module _ (trim : Text → Text) where
  -- `expect_ok`: the lines that are left after a tagged OK.
  unfoldable pub expect_ok : List Text → Result (List Text) SieveError
  expect_ok [] = err connection_closed
  expect_ok (line ∷ lines) =
      let rest = expect_ok lines in
      let trimmed = trim line in
      if starts_with trimmed (codes "OK")
      then ok lines
      else if is_refusal trimmed
      then err (server_error trimmed)
      else rest

  -- `split('"')`
  abbrev split_quotes : Text → List Text
  split_quotes [] = [] ∷ []
  split_quotes (c ∷ s) =
      if c == b'"'
      then [] ∷ split_quotes s
      else elim (split_quotes s) [ [] ↦ (c ∷ []) ∷ [] | part ∷ parts ↦ (c ∷ part) ∷ parts ]

  -- The first part that is not blank, trimmed.
  abbrev first_word : List Text → Text
  first_word [] = []
  first_word (part ∷ parts) = elim (trim part) [ [] ↦ first_word parts | c ∷ s ↦ c ∷ s ]

  abbrev names_starttls : Text → Bool
  names_starttls line = text_eq (first_word (split_quotes line)) (codes "STARTTLS")

  -- `read_capabilities`: whether STARTTLS was named, and the lines that are left.
  unfoldable pub read_capabilities : Bool → List Text → Result (Bool × List Text) SieveError
  read_capabilities starttls [] = err connection_closed
  read_capabilities starttls (line ∷ lines) =
      let trimmed = trim line in
      let rest = read_capabilities (starttls || names_starttls trimmed) lines in
      if starts_with trimmed (codes "OK")
      then ok (starttls, lines)
      else if is_refusal trimmed
      then err (server_error trimmed)
      else rest

  -- The commands of `run_session`, each after an OK for the one before; the logout waits for nothing.
  unfoldable pub run_session : Bool → List Command → List Text → List Written → Outcome
  run_session encrypted [] lines log =
      (ok tt, log ++ record { encrypted = encrypted; command = logout } ∷ [])
  run_session encrypted (command ∷ commands) lines log =
      let written : List Written =
        log ++ record { encrypted = encrypted; command = command } ∷ [] in
      after_answer (expect_ok lines) written (λ rest. run_session encrypted commands rest written)

  abbrev pub secure_session :
      Bool → Result (List Text) SieveError → List Text → List Written → Outcome
  secure_session tls_connects (err e) secure_lines log = (err e, log)
  secure_session false (ok _) secure_lines log = (err handshake_failed, log)
  secure_session true (ok _) secure_lines log =
      after_answer (read_capabilities false secure_lines) log
        (λ caps. run_session true session_commands caps.1 log)

  -- `do_push` after the connection: the plain lines, whether TLS connects, and the lines under TLS.
  unfoldable pub do_push : Bool → List Text → Bool → List Text → Outcome
  do_push allow_plaintext plain_lines tls_connects secure_lines =
      after_answer (read_capabilities false plain_lines) [] (λ caps.
        if caps.0
        then secure_session tls_connects (expect_ok caps.1) secure_lines
            (record { encrypted = false; command = request_starttls } ∷ [])
        else if not allow_plaintext
        then (err no_starttls, [])
        else run_session false session_commands caps.1 [])

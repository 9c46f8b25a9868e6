-- ===== src/Totp.antt =====
-- backend/src/mfa/totp.rs and the TOTP part of backend/src/db/mfa.rs: checking a one-time code, the
-- steps that were used, and the lockout. Times are Unix seconds; the clock of the database is the
-- caller's. The code of a time (the totp-rs crate) and `str::trim` are parameters.
pub mod Replay
pub mod Lockout
mod Tests
use rav.Common.{
  ℕ, ◌+◌, ◌-◌, ◌*◌, ◌/◌, Bool, true, false, not, ◌||◌, Option, none, some, List, [], ◌∷◌, ◌++◌, ltb,
  leb, ◌==◌, if◌then◌else◌, any, keep, length, Text,
}

abbrev totp_step : ℕ
totp_step = 30

abbrev max_failures : ℕ
max_failures = 5

abbrev lockout_seconds : ℕ
lockout_seconds = 900

-- `TOTP::generate` for the user's secret, and `str::trim`.
pub record Generator : Type 0 where
  pub generate : ℕ → Text
  pub trim : Text → Text

-- The tables: a used step with the time of its use, and the one row of `mfa_lockout`.
pub record MfaState : Type 0 where
  pub used_steps : List (ℕ × ℕ)
  pub failed_count : ℕ
  pub locked_until : Option ℕ
  pub last_failure : Option ℕ

abbrev pub is_step_used : ℕ → MfaState → Bool
is_step_used step s = any (λ used. used.0 == step) s.used_steps

-- `INSERT OR IGNORE`: the step is the table's key.
unfoldable pub record_used_step : ℕ → ℕ → MfaState → MfaState
record_used_step now step s =
    if is_step_used step s then s else record s { used_steps = s.used_steps ++ (step, now) ∷ [] }

abbrev pub prune_used_steps : ℕ → MfaState → MfaState
prune_used_steps cutoff s = record s {
  used_steps = keep (λ used. not (ltb used.1 cutoff)) s.used_steps;
}

abbrev is_later : ℕ → Option ℕ → Bool
is_later now none = false
is_later now (some t) = ltb now t

abbrev pub check_lockout : ℕ → MfaState → Bool
check_lockout now s = is_later now s.locked_until

unfoldable pub increment_lockout : ℕ → MfaState → MfaState
increment_lockout now s =
    let counted : MfaState = record s {
      failed_count = s.failed_count + 1;
      last_failure = some now;
    } in
    if leb max_failures counted.failed_count
    then record counted { locked_until = some (now + lockout_seconds) }
    else counted

unfoldable pub reset_lockout : MfaState → MfaState
reset_lockout s = record s { failed_count = 0; locked_until = none; last_failure = none }

abbrev differs : Text → Text → Bool
differs [] b = false
differs (x ∷ a) [] = false
differs (x ∷ a) (y ∷ b) = not (x == y) || differs a b

-- Lengths first, then every place; a place that differs sets a bit of the source's accumulator.
unfoldable pub constant_eq : Text → Text → Bool
constant_eq a b = if not (length a == length b) then false else not (differs a b)

module _ (g : Generator) where
  abbrev pub matches : Text → ℕ → Bool
  matches code step = constant_eq (g.trim code) (g.generate (step * totp_step))

  -- The loop over the offsets, on the steps that they give.
  unfoldable pub check_steps : ℕ → Text → List ℕ → MfaState → Bool × MfaState
  check_steps now code [] s = (false, increment_lockout now s)
  check_steps now code (step ∷ steps) s =
      if matches code step
      then (if is_step_used step s
          then (false, s)
          else (true, reset_lockout (record_used_step now step s)))
      else check_steps now code steps s

  abbrev pub window : ℕ → List ℕ
  window now =
      let current_step = now / totp_step in
      (current_step - 1) ∷ current_step ∷ (current_step + 1) ∷ []

  unfoldable pub verify_and_record : ℕ → Text → MfaState → Bool × MfaState
  verify_and_record now code s = check_steps now code (window now) (prune_used_steps (now - 300) s)

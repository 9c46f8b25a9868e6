-- ===== src/Totp/Tests.antt =====
-- One-time codes on concrete attempts.
use rav.Common.{ℕ, ◌+◌, ◌≡◌, refl, false, none, List, [], ◌∷◌, arith, Text, length, ◌/◌, leb, ◌||◌}
use rav.Totp.{
  Generator, MfaState, check_lockout, check_steps, constant_eq, verify_and_record, reset_lockout,
  record_used_step,
}
use rav.Totp.Replay.{Ordered, Distinct, accepted_steps, accepted_steps-Distinct, matched_step}
use rav.Totp.Lockout.{AllWrong, after_attempts, wrong_codes_lock}

-- A generator whose code is the number of the step.
abbrev counter : Generator
counter = record { generate = λ time. time / 30 ∷ []; trim = λ text. text }

abbrev enrolled : MfaState
enrolled = record { used_steps = []; failed_count = 0; locked_until = none; last_failure = none }

abbrev attempts : List (ℕ × Text)
attempts = (3000, 100 ∷ []) ∷ (3010, 100 ∷ []) ∷ (3030, 100 ∷ []) ∷ (3031, 101 ∷ []) ∷ []

replays_refused : accepted_steps counter attempts enrolled ≡ 100 ∷ 101 ∷ []
unfolding verify_and_record check_steps constant_eq reset_lockout record_used_step
replays_refused = refl

attempts-Ordered : Ordered 0 attempts
attempts-Ordered = (omega arith, (omega arith, (omega arith, (omega arith, tt))))

accepted_steps-Distinct_example : Distinct (accepted_steps counter attempts enrolled)
accepted_steps-Distinct_example =
    accepted_steps-Distinct counter 0 attempts enrolled attempts-Ordered

abbrev wrong : List (ℕ × Text)
wrong = (3000, []) ∷ (3001, []) ∷ (3002, []) ∷ (3003, []) ∷ []

wrong-AllWrong : AllWrong counter wrong
unfolding constant_eq
wrong-AllWrong = (refl, (refl, (refl, (refl, tt))))

fifth_wrong : matched_step counter 3004 [] ≡ none
unfolding constant_eq
fifth_wrong = refl

wrong_codes_lock_example :
    ((verify_and_record counter 3004 [] (after_attempts counter wrong enrolled)).0 ≡ false)
    × ((verify_and_record counter 3004 [] (after_attempts counter wrong enrolled)).1.failed_count
        ≡ enrolled.failed_count + length wrong + 1)
    × (check_lockout 3900
          (verify_and_record counter 3004 [] (after_attempts counter wrong enrolled)).1
        ≡ (leb 5 (enrolled.failed_count + length wrong + 1) || check_lockout 3900 enrolled))
wrong_codes_lock_example =
    wrong_codes_lock counter wrong 3004 3900 [] enrolled wrong-AllWrong fifth_wrong (omega arith)

-- ===== src/Totp/Lockout.antt =====
-- backend/src/mfa/totp.rs and backend/src/db/mfa.rs: wrong codes count, and five of them lock.
use rav.Common.{
  ◌||◌, ◌∙◌, if◌then◌else◌, ℕ, ◌+◌, ◌<◌, ◌≡◌, refl, inl, inr, true, false, none, some, List, [],
  ◌∷◌, arith, Bool-cases, leb, length, Text,
}
use rav.Totp.{
  max_failures, Generator, MfaState, check_lockout, increment_lockout, verify_and_record,
}
use rav.Totp.Replay.{matched_step, verify_and_record-outcome}

module _ (g : Generator) where
  -- Attempts with codes that belong to no step of their windows.
  abbrev pub AllWrong : List (ℕ × Text) → Type 0
  AllWrong [] = Unit
  AllWrong ((now, code) ∷ attempts) = (matched_step g now code ≡ none) × AllWrong attempts

  abbrev pub after_attempts : List (ℕ × Text) → MfaState → MfaState
  after_attempts [] s = s
  after_attempts ((now, code) ∷ attempts) s =
      after_attempts attempts (verify_and_record g now code s).1

  wrong_count :
      (now : ℕ) (code : Text) (s : MfaState)
      → matched_step g now code ≡ none
      → ((verify_and_record g now code s).0 ≡ false)
        × ((verify_and_record g now code s).1.failed_count ≡ s.failed_count + 1)
        × ((verify_and_record g now code s).1.locked_until
            ≡ (if leb 5 (s.failed_count + 1) then some (now + 900) else s.locked_until))
  unfolding increment_lockout
  wrong_count now code s e = rw (verify_and_record-outcome g now code s) (
      rw e (elim (Bool-cases (leb max_failures (s.failed_count + 1))) [
        | inl full ↦ rw full (refl, refl, refl)
        | inr more ↦ rw more (refl, refl, refl)
      ]))

  failed_count-after :
      (attempts : List (ℕ × Text)) (s : MfaState)
      → AllWrong attempts
      → (after_attempts attempts s).failed_count ≡ s.failed_count + length attempts
  failed_count-after [] s h = omega arith
  failed_count-after ((now, code) ∷ attempts) s h =
      let rest = failed_count-after attempts (verify_and_record g now code s).1 h.1 in
      let first = (wrong_count now code s h.0).1 in omega (arith, rest, first)

  locked_until-after :
      (attempts : List (ℕ × Text)) (s : MfaState)
      → AllWrong attempts
      → s.failed_count + length attempts < 5
      → (after_attempts attempts s).locked_until ≡ s.locked_until
  locked_until-after [] s h few = refl
  locked_until-after ((now, code) ∷ attempts) s h few =
      let (refused, counted, locked) = wrong_count now code s h.0 in
      let more : leb 5 (s.failed_count + 1) ≡ false = ground (arith, few) in
      locked_until-after attempts (verify_and_record g now code s).1 h.1
        (omega (arith, counted, few))
      ∙ rw more at locked

  -- After checks of codes that belong to no step of their windows, one more such check is refused and counted.
  -- In the fifteen minutes after it the account is locked if that makes five or more since the count was zero,
  -- and else exactly if it was locked before them.
  pub wrong_codes_lock :
      (attempts : List (ℕ × Text)) (now later : ℕ) (code : Text) (s : MfaState)
      → AllWrong attempts
      → matched_step g now code ≡ none
      → later < now + 900
      → ((verify_and_record g now code (after_attempts attempts s)).0 ≡ false)
        × ((verify_and_record g now code (after_attempts attempts s)).1.failed_count
            ≡ s.failed_count + length attempts + 1)
        × (check_lockout later (verify_and_record g now code (after_attempts attempts s)).1
            ≡ (leb 5 (s.failed_count + length attempts + 1) || check_lockout later s))
  wrong_codes_lock attempts now later code s h e before =
      let count = failed_count-after attempts s h in
      let (refused, counted, locked) = wrong_count now code (after_attempts attempts s) e in
      (
        refused,
        omega (arith, counted, count),
        elim (Bool-cases (leb 5 (s.failed_count + length attempts + 1))) [
          | inl five ↦
              let full : leb 5 ((after_attempts attempts s).failed_count + 1) ≡ true =
                ground (arith, five, count) in
              rw (locked, full, five) (ground (arith, before))
          | inr more ↦
              let few : leb 5 ((after_attempts attempts s).failed_count + 1) ≡ false =
                ground (arith, more, count) in
              let kept = locked_until-after attempts s h (ground (arith, more)) in
              rw (locked, few, more) (rw kept refl)
        ],
      )

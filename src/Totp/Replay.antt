-- ===== src/Totp/Replay.antt =====
-- backend/src/mfa/totp.rs: no step of the clock is accepted twice.
use rav.Common.{
  ℕ, ◌+◌, ◌-◌, ◌/◌, ◌≤◌, ◌<◌, ◌≡◌, ◌≢◌, ◌⊎◌, inl, inr, refl, sym, Bool, true, false, Option, none,
  some, List, [], ◌∷◌, ◌++◌, arith, Bool-cases, if◌then◌else◌, ltb, leb, ◌==◌, ==_iff, any-true,
  All, Text, Memᴰ, mem-keep, mem-append,
}
use rav.Totp.{
  max_failures, Generator, MfaState, is_step_used, record_used_step, prune_used_steps,
  reset_lockout, increment_lockout, matches, window, check_steps, verify_and_record,
}

-- The attempts come in the order of their times, from `t` on.
abbrev pub Ordered : ℕ → List (ℕ × Text) → Type 0
Ordered t [] = Unit
Ordered t ((now, code) ∷ attempts) = (t ≤ now) × Ordered now attempts

abbrev pub Distinct : List ℕ → Type 0
Distinct [] = Unit
Distinct (k ∷ ks) = All (λ x. x ≢ k) ks × Distinct ks

module _ (g : Generator) where
  -- The step that a code is taken for: the first of the window that has the code.
  abbrev pub first_match : Text → List ℕ → Option ℕ
  first_match code [] = none
  first_match code (step ∷ steps) =
      if matches g code step then some step else first_match code steps

  abbrev pub matched_step : ℕ → Text → Option ℕ
  matched_step now code = first_match code (window g now)

  abbrev as_list : Bool → Option ℕ → List ℕ
  as_list true (some step) = step ∷ []
  as_list true none = []
  as_list false o = []

  -- The steps that a sequence of attempts uses up.
  abbrev pub accepted_steps : List (ℕ × Text) → MfaState → List ℕ
  accepted_steps [] s = []
  accepted_steps ((now, code) ∷ attempts) s =
      as_list (verify_and_record g now code s).0 (matched_step now code)
      ++ accepted_steps attempts (verify_and_record g now code s).1

  -- What a check does, by the step that it finds.
  abbrev outcome : ℕ → Option ℕ → MfaState → Bool × MfaState
  outcome now none s = (false, increment_lockout now s)
  outcome now (some step) s =
      if is_step_used step s
      then (false, s)
      else (true, reset_lockout (record_used_step now step s))

  check_steps-outcome :
      (now : ℕ) (code : Text) (steps : List ℕ) (s : MfaState)
      → check_steps g now code steps s ≡ outcome now (first_match code steps) s
  unfolding check_steps
  check_steps-outcome now code [] s = refl
  check_steps-outcome now code (step ∷ steps) s = elim (Bool-cases (matches g code step)) [
    | inl e ↦ rw e refl
    | inr e ↦ rw e (check_steps-outcome now code steps s)
  ]

  -- A check at `now` succeeds exactly if the code is that of a step of the window and the first such step
  -- was not used in the last five minutes.
  pub verify_and_record-outcome :
      (now : ℕ) (code : Text) (s : MfaState)
      → verify_and_record g now code s
        ≡ outcome now (matched_step now code) (prune_used_steps (now - 300) s)
  unfolding verify_and_record
  verify_and_record-outcome now code s = check_steps-outcome now code (window g now) _

  window_bounds :
      (now step : ℕ) (code : Text)
      → matched_step now code ≡ some step
      → (now / 30 ≤ step + 1) × (step ≤ now / 30 + 1)
  window_bounds now step code h = ground arith

  -- A step that was accepted at `at` is in the table, or so long ago that no window reaches it.
  Kept : ℕ → ℕ → ℕ → MfaState → Type 0
  Kept step at now s = Memᴰ (step, at) s.used_steps ⊎ (at + 300 < now)

  Kept-prune_used_steps :
      (step at t now : ℕ) (s : MfaState)
      → t ≤ now
      → Kept step at t s
      → Kept step at now (prune_used_steps (now - 300) s)
  unfolding Kept
  Kept-prune_used_steps step at t now s h (inr old) = inr (omega arith)
  Kept-prune_used_steps step at t now s h (inl m) = elim (Bool-cases (ltb at (now - 300))) [
    | inl e ↦ inr (ground arith)
    | inr e ↦ inl (mem-keep _ (step, at) s.used_steps m (rw e refl))
  ]

  Kept-outcome :
      (step at now : ℕ) (o : Option ℕ) (s : MfaState)
      → Kept step at now s
      → Kept step at now (outcome now o s).1
  unfolding Kept increment_lockout reset_lockout record_used_step
  Kept-outcome step at now o s (inr old) = inr old
  Kept-outcome step at now none s (inl m) =
      elim (Bool-cases (leb max_failures (s.failed_count + 1))) [
        | inl e ↦ rw e (inl m)
        | inr e ↦ rw e (inl m)
      ]
  Kept-outcome step at now (some k) s (inl m) = elim (Bool-cases (is_step_used k s)) [
    | inl e ↦ rw e (inl m)
    | inr e ↦ rw e (inl (mem-append (step, at) s.used_steps _ (inl m)))
  ]

  apart :
      (step at now k : ℕ) (code : Text) (s : MfaState)
      → Kept step at now s
      → step ≤ at / 30 + 1
      → matched_step now code ≡ some k
      → is_step_used k s ≡ false
      → k ≢ step
  unfolding Kept
  apart step at now k code s (inr old) h e new same =
      let bounds = window_bounds now k code e in omega (arith, bounds)
  apart step at now k code s (inl m) h e new same =
      let used =
        any-true (λ used. used.0 == k) s.used_steps (step, at) m ((==_iff step k).1 (sym same)) in
      ground (arith, used, new)

  -- One attempt does not use up a step that is kept, if the later ones do not.
  not_now :
      (step at now : ℕ) (code : Text) (later : MfaState → List ℕ) (o : Option ℕ) (s : MfaState)
      → Kept step at now s
      → step ≤ at / 30 + 1
      → matched_step now code ≡ o
      → ((after : MfaState) → Kept step at now after → All (λ k. k ≢ step) (later after))
      → All (λ k. k ≢ step) (as_list (outcome now o s).0 o ++ later (outcome now o s).1)
  not_now step at now code later none s kept near e rest =
      rest _ (Kept-outcome step at now none s kept)
  not_now step at now code later (some k) s kept near e rest =
      let after = rest _ (Kept-outcome step at now (some k) s kept) in
      elim (Bool-cases (is_step_used k s)) [
        | inl used ↦ rw used (rw used at after)
        | inr new ↦ rw new (apart step at now k code s kept near e new, rw new at after)
      ]

  not_again :
      (step at t : ℕ) (attempts : List (ℕ × Text)) (s : MfaState)
      → Ordered t attempts
      → Kept step at t s
      → step ≤ at / 30 + 1
      → All (λ k. k ≢ step) (accepted_steps attempts s)
  not_again step at t [] s h kept near = tt
  not_again step at t ((now, code) ∷ attempts) s h kept near =
      rw (verify_and_record-outcome now code s) (
        not_now step at now code (accepted_steps attempts) (matched_step now code)
          (prune_used_steps (now - 300) s) (Kept-prune_used_steps step at t now s h.0 kept) near
          refl (λ after k. not_again step at now attempts after h.1 k near))

  Kept-new :
      (now k : ℕ) (s : MfaState)
      → is_step_used k s ≡ false
      → Kept k now now (outcome now (some k) s).1
  unfolding Kept reset_lockout record_used_step
  Kept-new now k s new = rw new (inl (mem-append (k, now) s.used_steps _ (inr (Memᴰ.head refl))))

  Distinct-now :
      (now : ℕ) (code : Text) (attempts : List (ℕ × Text)) (o : Option ℕ) (s : MfaState)
      → Ordered now attempts
      → matched_step now code ≡ o
      → Distinct (accepted_steps attempts (outcome now o s).1)
      → Distinct (as_list (outcome now o s).0 o ++ accepted_steps attempts (outcome now o s).1)
  Distinct-now now code attempts none s h e rest = rest
  Distinct-now now code attempts (some k) s h e rest = elim (Bool-cases (is_step_used k s)) [
    | inl used ↦ rw used (rw used at rest)
    | inr new ↦
        let others =
          not_again k now now attempts _ h (Kept-new now k s new) (window_bounds now k code e).1 in
        rw new (rw new at others, rw new at rest)
  ]

  -- Over any sequence of checks in the order of their times, whatever the table holds at the start, no
  -- step of the clock is accepted twice: a code that was accepted is not accepted again for its step.
  pub accepted_steps-Distinct :
      (t : ℕ) (attempts : List (ℕ × Text)) (s : MfaState)
      → Ordered t attempts
      → Distinct (accepted_steps attempts s)
  accepted_steps-Distinct t [] s h = tt
  accepted_steps-Distinct t ((now, code) ∷ attempts) s h =
      rw (verify_and_record-outcome now code s) (
        Distinct-now now code attempts (matched_step now code) (prune_used_steps (now - 300) s) h.1
          refl (accepted_steps-Distinct now attempts _ h.1))

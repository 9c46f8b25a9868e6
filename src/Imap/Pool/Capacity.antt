-- ===== src/Imap/Pool/Capacity.antt =====
-- backend/src/imap/pool.rs: how many values a key holds.
use rav.Common.{
  ℕ, ◌≤◌, ◌≡◌, refl, ◌∙◌, String, Option, List, [], ◌∷◌, arith, length, lookup, lookup-insert,
  eq_iff,
}
use rav.Imap.Pool.{Pool, with_max_age, entry, pop_fresh, take, put}

pub data Call (T : Type 0) : Type 0 where
  takes : String → ℕ → Call T
  puts : String → T → ℕ → Call T

module _ {T : Type 0} where
  unfoldable pub step : Pool T → Call T → Pool T
  step p (takes key now) = (take p key now).1
  step p (puts key value now) = (put p key value now).1

  unfoldable pub run : Pool T → List (Call T) → Pool T
  run p [] = p
  run p (c ∷ cs) = run (step p c) cs

  pub record IsBounded (p : Pool T) : Type 0 where
    pub at : (key : String) → length (entry p key) ≤ p.max_idle

  length-pop_fresh_le :
      (age : Option ℕ) (now : ℕ) (stored : List (T × ℕ))
      → length (pop_fresh age now stored).1 ≤ length stored
  unfolding pop_fresh
  length-pop_fresh_le age now [] = omega arith
  length-pop_fresh_le age now ((value, since) ∷ rest) =
      ground (arith, length-pop_fresh_le age now rest)

  take-IsBounded :
      (p : Pool T) (key : String) (now : ℕ) → IsBounded p → IsBounded (take p key now).1
  unfolding take
  take-IsBounded p key now h = record {
    at = λ k. ground (
      arith,
      h.at k,
      eq_iff key k,
      length-pop_fresh_le p.max_age now (entry p key),
      lookup-insert key k (pop_fresh p.max_age now (entry p key)).1 p.slots,
    );
  }

  put-IsBounded :
      (p : Pool T) (key : String) (value : T) (now : ℕ)
      → IsBounded p
      → IsBounded (put p key value now).1
  unfolding put
  put-IsBounded p key value now h = record {
    at = λ k. ground (
      arith,
      h.at k,
      eq_iff key k,
      lookup-insert key k (entry p key) p.slots,
      lookup-insert key k ((value, now) ∷ entry p key) p.slots,
    );
  }

  step-IsBounded : (p : Pool T) (c : Call T) → IsBounded p → IsBounded (step p c)
  unfolding step
  step-IsBounded p (takes key now) h = take-IsBounded p key now h
  step-IsBounded p (puts key value now) h = put-IsBounded p key value now h

  run-IsBounded : (p : Pool T) (cs : List (Call T)) → IsBounded p → IsBounded (run p cs)
  unfolding run
  run-IsBounded p [] h = h
  run-IsBounded p (c ∷ cs) h = run-IsBounded (step p c) cs (step-IsBounded p c h)

  max_idle-step : (p : Pool T) (c : Call T) → (step p c).max_idle ≡ p.max_idle
  unfolding step take put
  max_idle-step p (takes key now) = ground arith
  max_idle-step p (puts key value now) = ground arith

  max_idle-run : (p : Pool T) (cs : List (Call T)) → (run p cs).max_idle ≡ p.max_idle
  unfolding run
  max_idle-run p [] = refl
  max_idle-run p (c ∷ cs) = max_idle-run (step p c) cs ∙ max_idle-step p c

  with_max_age-IsBounded :
      (max_idle max_age : ℕ) → IsBounded (with_max_age {T = T} max_idle max_age)
  unfolding with_max_age lookup
  with_max_age-IsBounded max_idle max_age = record { at = λ k. omega arith }

  -- After any sequence of takes and puts on a new pool, no key holds more than `max_idle` values.
  pub run_bounded :
      (max_idle max_age : ℕ) (cs : List (Call T)) (key : String)
      → length (entry (run (with_max_age max_idle max_age) cs) key) ≤ max_idle
  unfolding with_max_age
  run_bounded max_idle max_age cs key =
      let p = with_max_age {T = T} max_idle max_age in
      let bounded = run-IsBounded p cs (with_max_age-IsBounded max_idle max_age) in
      omega (arith, bounded.at key, max_idle-run p cs)

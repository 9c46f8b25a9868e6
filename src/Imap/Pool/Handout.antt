-- ===== src/Imap/Pool/Handout.antt =====
-- backend/src/imap/pool.rs: which value `take` hands out, and what `put` stores.
use rav.Common.{
  ℕ, ◌-◌, ◌≤◌, ◌<◌, ◌≡◌, ◌≢◌, ◌↔◌, refl, ap, ◌∙◌, ◌⊎◌, inl, inr, String, true, false, Option, none,
  some, List, [], ◌∷◌, ◌++◌, arith, length, All, lookup, lookup-insert, eq_iff, eq_refl,
  Option-cases, if◌then◌else◌,
}
use rav.Imap.Pool.{Pool, entry, is_stale, pop_fresh, take, put}

-- Whether a value idle since `since` is past the pool's age limit at `now`.
abbrev pub IsStale : Option ℕ → ℕ → ℕ → Type 0
IsStale none now since = ⊥
IsStale (some max) now since = max ≤ now - since

is_stale-cases :
    (age : Option ℕ) (now since : ℕ)
    → ((is_stale age now since ≡ true) × IsStale age now since)
      ⊎ ((is_stale age now since ≡ false) × (¬ IsStale age now since))
is_stale-cases none now since = inr (refl, λ h. h)
is_stale-cases (some max) now since = grind arith

module _ {T : Type 0} where
  abbrev pub AllStale : Option ℕ → ℕ → List (T × ℕ) → Type 0
  AllStale age now = All (λ s. IsStale age now s.1)

  -- What a `take` may do to the values `stored` of its key.
  pub data Takes (age : Option ℕ) (now : ℕ) (stored left : List (T × ℕ)) : Option T → Type 0 where
    found :
        (stale : List (T × ℕ)) (value : T) (since : ℕ)
        → stored ≡ stale ++ (value, since) ∷ left
        → AllStale age now stale
        → ¬ IsStale age now since
        → Takes age now stored left (some value)
    nothing : AllStale age now stored → left ≡ [] → Takes age now stored left none

  Takes-cons :
      (age : Option ℕ) (now since : ℕ) (value : T) (rest left : List (T × ℕ)) {r : Option T}
      → IsStale age now since
      → Takes age now rest left r
      → Takes age now ((value, since) ∷ rest) left r
  Takes-cons age now since value rest left h (found stale v s e hs f) =
      found ((value, since) ∷ stale) v s (cc) (h, hs) f
  Takes-cons age now since value rest left h (nothing hs e) = nothing (h, hs) e

  pop_fresh-Takes :
      (age : Option ℕ) (now : ℕ) (stored : List (T × ℕ))
      → Takes age now stored (pop_fresh age now stored).1 (pop_fresh age now stored).0
  unfolding pop_fresh
  pop_fresh-Takes age now [] = nothing tt refl
  pop_fresh-Takes age now ((value, since) ∷ rest) = elim (is_stale-cases age now since) [
    | inl (e, h) ↦ rw e (Takes-cons age now since value rest _ h (pop_fresh-Takes age now rest))
    | inr (e, h) ↦ rw e (found [] value since refl tt h)
  ]

  -- `take` hands out the latest value that is not past the age limit. What it discards on the way is
  -- past the limit, what it leaves is all that is older, and it finds nothing only if every value
  -- of the key is past the limit.
  pub take-Takes :
      (p : Pool T) (key : String) (now : ℕ)
      → Takes p.max_age now (entry p key) (entry (take p key now).1 key) (take p key now).0
  unfolding take
  take-Takes p key now = elim (Option-cases (lookup key p.slots)) [
    | inl e ↦ rw (e, take) (nothing tt (rw e))
    | inr (stored, e) ↦
        rw (e, take)
          (rw (lookup-insert key key) (rw (eq_refl key) (pop_fresh-Takes p.max_age now stored)))
  ]

  -- A call for one key leaves what the other keys hold.
  pub other_keys :
      (p : Pool T) (key other : String) (value : T) (now : ℕ)
      → key ≢ other
      → (entry (take p key now).1 other ≡ entry p other)
        × (entry (put p key value now).1 other ≡ entry p other)
  unfolding take put
  other_keys p key other value now h = (
    ground (
      arith,
      eq_iff key other,
      lookup-insert key other (pop_fresh p.max_age now (entry p key)).1 p.slots,
    ),
    ground (
      arith,
      eq_iff key other,
      lookup-insert key other (entry p key) p.slots,
      lookup-insert key other ((value, now) ∷ entry p key) p.slots,
    ),
  )

  -- `put` refuses a value exactly if its key is full, and then changes nothing under that key.
  pub put_refused_iff :
      (p : Pool T) (key : String) (value : T) (now : ℕ)
      → ((put p key value now).0 ≡ false) ↔ (p.max_idle ≤ length (entry p key))
  unfolding put
  put_refused_iff p key value now = (λ e. ground arith, λ h. ground arith)

  pub entry-put :
      (p : Pool T) (key : String) (value : T) (now : ℕ)
      → entry (put p key value now).1 key
        ≡ (if (put p key value now).0 then (value, now) ∷ entry p key else entry p key)
  unfolding put
  entry-put p key value now = ground (
    arith,
    eq_refl key,
    lookup-insert key key (entry p key) p.slots,
    lookup-insert key key ((value, now) ∷ entry p key) p.slots,
  )

  take_stored :
      (p : Pool T) (key : String) (now : ℕ) (stored : List (T × ℕ))
      → lookup key p.slots ≡ some stored
      → ((take p key now).0 ≡ (pop_fresh p.max_age now stored).0)
        × (entry (take p key now).1 key ≡ (pop_fresh p.max_age now stored).1)
  unfolding take
  take_stored p key now stored e =
      (rw (e, take), rw (e, take) (rw (lookup-insert key key) (rw (eq_refl key))))

  pop_fresh_of_fresh :
      (age : Option ℕ) (now since : ℕ) (value : T) (rest : List (T × ℕ))
      → ¬ IsStale age now since
      → pop_fresh age now ((value, since) ∷ rest) ≡ (some value, rest)
  unfolding pop_fresh
  pop_fresh_of_fresh age now since value rest fresh = elim (is_stale-cases age now since) [
    | inl (e, h) ↦ absurd (fresh h)
    | inr (e, h) ↦ rw e
  ]

  lookup-put_self :
      (p : Pool T) (key : String) (value : T) (now : ℕ)
      → length (entry p key) < p.max_idle
      → lookup key (put p key value now).1.slots ≡ some ((value, now) ∷ entry p key)
  unfolding put
  lookup-put_self p key value now room =
      ground (arith, eq_refl key, lookup-insert key key ((value, now) ∷ entry p key) p.slots)

  max_age-put :
      (p : Pool T) (key : String) (value : T) (now : ℕ)
      → (put p key value now).1.max_age ≡ p.max_age
  unfolding put
  max_age-put p key value now = ground arith

  -- What a successful `put` stores is what the next `take` of the key hands out, if it comes before
  -- the age limit, and the key is then as it was.
  pub take-put :
      (p : Pool T) (key : String) (value : T) (now later : ℕ)
      → length (entry p key) < p.max_idle
      → ¬ IsStale p.max_age later now
      → ((take (put p key value now).1 key later).0 ≡ some value)
        × (entry (take (put p key value now).1 key later).1 key ≡ entry p key)
  take-put p key value now later room fresh =
      let q = (put p key value now).1 in
      let popped : pop_fresh q.max_age later ((value, now) ∷ entry p key)
          ≡ (some value, entry p key) =
        rw (max_age-put p key value now)
          (pop_fresh_of_fresh p.max_age later now value (entry p key) fresh) in
      let (a, b) = take_stored q key later _ (lookup-put_self p key value now room) in
      (a ∙ ap (λ r. r.0) popped, b ∙ ap (λ r. r.1) popped)

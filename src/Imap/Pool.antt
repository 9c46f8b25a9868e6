-- ===== src/Imap/Pool.antt =====
-- backend/src/imap/pool.rs: a bounded set of idle values per key. The mutex makes each method one
-- step; `now` is the clock at the call. A `Vec` is a list whose head is the vector's back.
pub mod Capacity
pub mod Handout
pub mod Counting
mod Tests
use rav.Common.{
  ℕ, ◌-◌, ◌≡◌, String, Bool, true, false, Option, none, some, List, [], ◌∷◌, leb, ◌==◌,
  if◌then◌else◌, length, Dict, lookup, insert, unwrap_or,
}

pub record Pool (T : Type 0) : Type 0 where
  pub slots : Dict (List (T × ℕ))
  pub max_idle : ℕ
  pub max_age : Option ℕ

-- The guard of the `match` in `take`: `idle_since.elapsed() >= max`.
abbrev pub is_stale : Option ℕ → ℕ → ℕ → Bool
is_stale none now idle_since = false
is_stale (some max) now idle_since = leb max (now - idle_since)

module _ {T : Type 0} where
  pub with_max_age : ℕ → ℕ → Pool T
  with_max_age max_idle max_age = record { slots = []; max_idle = max_idle; max_age = some max_age }

  -- What is stored under a key, the latest value first.
  abbrev pub entry : Pool T → String → List (T × ℕ)
  entry p key = unwrap_or (lookup key p.slots) []

  -- The `while let` of `take`: pop until a value is young enough.
  unfoldable pub pop_fresh : Option ℕ → ℕ → List (T × ℕ) → Option T × List (T × ℕ)
  pop_fresh max_age now [] = (none, [])
  pop_fresh max_age now ((value, idle_since) ∷ rest) =
      let older = pop_fresh max_age now rest in
      if is_stale max_age now idle_since then older else (some value, rest)

  unfoldable pub take : Pool T → String → ℕ → Option T × Pool T
  take p key now = elim (lookup key p.slots) [
    | none ↦ (none, p)
    | some stored ↦
        let (found, left) = pop_fresh p.max_age now stored in
        (found, record p { slots = insert key left p.slots })
  ]

  unfoldable pub put : Pool T → String → T → ℕ → Bool × Pool T
  put p key value now =
      if p.max_idle == 0
      then (false, p)
      else if leb p.max_idle (length (entry p key))
      then (false, record p { slots = insert key (entry p key) p.slots })
      else (true, record p { slots = insert key ((value, now) ∷ entry p key) p.slots })

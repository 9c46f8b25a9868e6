-- ===== src/Imap/Pool/Counting.antt =====
-- backend/src/imap/pool.rs: a pooled value belongs to one holder at a time. Values are identified by
-- numbers here.
use rav.Common.{
  ℕ, ◌+◌, ◌≤◌, ◌≡◌, String, Bool, Option, none, some, List, [], ◌∷◌, arith, ◌==◌, if◌then◌else◌,
  Dict, lookup, insert, unwrap_or,
}
use rav.Imap.Pool.{Pool, with_max_age, entry, pop_fresh, take, put}
use rav.Imap.Pool.Capacity.{Call, takes, puts, step, run}

-- One for a match, none otherwise.
abbrev pub one_if : Bool → ℕ
one_if b = if b then 1 else 0

abbrev pub count : ℕ → List (ℕ × ℕ) → ℕ
count v [] = 0
count v ((w, since) ∷ rest) = one_if (w == v) + count v rest

-- How often the pool holds `v`, over all keys.
abbrev pub total : ℕ → Dict (List (ℕ × ℕ)) → ℕ
total v [] = 0
total v ((key, stored) ∷ slots) = count v stored + total v slots

abbrev pub given : ℕ → Option ℕ → ℕ
given v none = 0
given v (some w) = one_if (w == v)

total-insert :
    (v : ℕ) (key : String) (stored : List (ℕ × ℕ)) (slots : Dict (List (ℕ × ℕ)))
    → total v (insert key stored slots) + count v (unwrap_or (lookup key slots) [])
      ≡ total v slots + count v stored
unfolding insert lookup
total-insert v key stored [] = omega arith
total-insert v key stored ((k, old) ∷ slots) = ground (arith, total-insert v key stored slots)

count-pop_fresh :
    (v : ℕ) (age : Option ℕ) (now : ℕ) (stored : List (ℕ × ℕ))
    → given v (pop_fresh age now stored).0 + count v (pop_fresh age now stored).1 ≤ count v stored
unfolding pop_fresh
count-pop_fresh v age now [] = omega arith
count-pop_fresh v age now ((w, since) ∷ rest) = ground (arith, count-pop_fresh v age now rest)

total-take :
    (v : ℕ) (p : Pool ℕ) (key : String) (now : ℕ)
    → given v (take p key now).0 + total v (take p key now).1.slots ≤ total v p.slots
unfolding take
total-take v p key now = ground (
  arith,
  count-pop_fresh v p.max_age now (entry p key),
  total-insert v key (pop_fresh p.max_age now (entry p key)).1 p.slots,
)

total-put :
    (v : ℕ) (p : Pool ℕ) (key : String) (value now : ℕ)
    → total v (put p key value now).1.slots ≤ total v p.slots + one_if (value == v)
unfolding put
total-put v p key value now = ground (
  arith,
  total-insert v key (entry p key) p.slots,
  total-insert v key ((value, now) ∷ entry p key) p.slots,
)

-- How often a sequence of calls hands `v` out, and how often it puts `v` in.
unfoldable pub handed_out : ℕ → Pool ℕ → List (Call ℕ) → ℕ
handed_out v p [] = 0
handed_out v p (takes key now ∷ cs) =
    given v (take p key now).0 + handed_out v (step p (takes key now)) cs
handed_out v p (puts key value now ∷ cs) = handed_out v (step p (puts key value now)) cs

unfoldable pub put_in : ℕ → List (Call ℕ) → ℕ
put_in v [] = 0
put_in v (takes key now ∷ cs) = put_in v cs
put_in v (puts key value now ∷ cs) = one_if (value == v) + put_in v cs

handed_out-le :
    (v : ℕ) (p : Pool ℕ) (cs : List (Call ℕ))
    → handed_out v p cs + total v (run p cs).slots ≤ total v p.slots + put_in v cs
unfolding handed_out put_in run step
handed_out-le v p [] = omega arith
handed_out-le v p (takes key now ∷ cs) =
    omega (arith, handed_out-le v (take p key now).1 cs, total-take v p key now)
handed_out-le v p (puts key value now ∷ cs) =
    omega (arith, handed_out-le v (put p key value now).1 cs, total-put v p key value now)

-- Over any calls on a new pool, a value is handed out, or still held, at most as often as it was put
-- in: no value is ever given to two holders.
pub handed_out_once :
    (max_idle max_age v : ℕ) (cs : List (Call ℕ))
    → handed_out v (with_max_age max_idle max_age) cs
        + total v (run (with_max_age max_idle max_age) cs).slots
      ≤ put_in v cs
unfolding with_max_age
handed_out_once max_idle max_age v cs =
    omega (arith, handed_out-le v (with_max_age max_idle max_age) cs)

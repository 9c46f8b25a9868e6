-- ===== src/Imap/Pool/Tests.antt =====
-- backend/src/imap/pool.rs on concrete pools.
use rav.Common.{ℕ, ◌≤◌, ◌≡◌, refl, false, none, some, List, [], ◌∷◌, length, lookup, ◌+◌, insert}
use rav.Imap.Pool.{Pool, with_max_age, entry, take, put, pop_fresh}
use rav.Imap.Pool.Capacity.{Call, takes, puts, run, run_bounded}
use rav.Imap.Pool.Handout.{Takes, take-Takes}
use rav.Imap.Pool.Counting.{handed_out, put_in, total, handed_out_once}

-- Two values under one key, put at times 10 and 20, in a pool of size 2 and age limit 25.
abbrev two_idle : Pool ℕ
two_idle = record { slots = ("a@x", (8, 20) ∷ (7, 10) ∷ []) ∷ []; max_idle = 2; max_age = some 25 }

abbrev calls : List (Call ℕ)
calls = puts "a@x" 7 10 ∷ puts "a@x" 8 20 ∷ puts "a@x" 9 21 ∷ takes "a@x" 40 ∷ takes "a@x" 41 ∷ []

take_latest : (take two_idle "a@x" 40).0 ≡ some 8
unfolding take pop_fresh lookup insert
take_latest = refl

take_all_stale : (take two_idle "a@x" 60).0 ≡ none
unfolding take pop_fresh lookup insert
take_all_stale = refl

full_refuses : (put two_idle "a@x" 9 21).0 ≡ false
unfolding put lookup
full_refuses = refl

run_bounded_example : length (entry (run (with_max_age 2 25) calls) "a@x") ≤ 2
run_bounded_example = run_bounded 2 25 calls "a@x"

take-Takes_example :
    Takes
      (some 25)
      40
      ((8, 20) ∷ (7, 10) ∷ [])
      (entry (take two_idle "a@x" 40).1 "a@x")
      (take two_idle "a@x" 40).0
unfolding lookup
take-Takes_example = take-Takes two_idle "a@x" 40

handed_out_once_example :
    handed_out 8 (with_max_age 2 25) calls + total 8 (run (with_max_age 2 25) calls).slots ≤ 1
unfolding put_in
handed_out_once_example = handed_out_once 2 25 8 calls

-- ===== src/Sieve/Interval.antt =====
-- backend/src/sieve/generator.rs: the days of the `vacation` command.
use rav.Common.{ℕ, ◌-◌, ◌*◌, ◌≤◌, ◌<◌, ◌≡◌, ◌⊎◌, arith}
use rav.Sieve.Vacation.{ℤ, pos, negsuc, reply_days}

-- The days cover the interval and are at least one.
abbrev pub IsCover : ℤ → ℕ → Type 0
IsCover (pos hours) days =
    (1 ≤ days) × (hours ≤ 24 * days) × ((days ≡ 1) ⊎ (24 * (days - 1) < hours))
IsCover (negsuc n) days = days ≡ 1

-- A reply interval becomes the least number of whole days, one at least, that is as long; an interval
-- below zero becomes one day.
pub reply_days-IsCover : (hours : ℤ) → IsCover hours (reply_days hours)
unfolding reply_days
reply_days-IsCover (pos n) = ground arith
reply_days-IsCover (negsuc n) = ground arith

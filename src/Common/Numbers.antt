-- ===== src/Common/Numbers.antt =====
-- `str::parse` for unsigned integers of a given limit, and decimal printing.
use Prim.Native.Nat.{ℕ, zero, suc, ◌+◌, ◌-◌, ◌*◌, ◌/◌, ◌%◌, ◌<◌, ◌≤◌}
use mathlib.Core.Path.{◌≡◌, refl, ap, sym, ◌∙◌}
use mathlib.Core.Bool.{Bool, false, ◌&&◌}
use mathlib.Core.Option.{Option, none, some}
use mathlib.Core.List.{[], ◌∷◌, ◌++◌}
use mathlib.Core.Logic.{inl, inr}
use native.Mathlib.Omega.{arith}
use rav.Common.Checks.{ltb, leb, ◌==◌, if◌then◌else◌, Bool-cases}
use rav.Common.Texts.{Text}

abbrev pub is_digit : ℕ → Bool
is_digit c = leb b'0' c && leb c b'9'

-- The loop of `from_str_radix`: a digit that is none, or a value that reaches the limit, is an error.
unfoldable pub parse_digits : ℕ → ℕ → Text → Option ℕ
parse_digits limit value [] = some value
parse_digits limit value (c ∷ s) =
    let next = value * 10 + (c - b'0') in
    let rest = parse_digits limit next s in if is_digit c && ltb next limit then rest else none

abbrev parse_some : ℕ → Text → Option ℕ
parse_some limit [] = none
parse_some limit (c ∷ s) = parse_digits limit 0 (c ∷ s)

-- A leading plus sign is allowed; an empty text is an error.
unfoldable pub parse_uint : ℕ → Text → Option ℕ
unfolding parse_digits
parse_uint limit [] = none
parse_uint limit (c ∷ s) = if c == b'+' then parse_some limit s else parse_some limit (c ∷ s)

parse_digits-lt :
    (limit value : ℕ) (s : Text) (n : ℕ)
    → value < limit
    → parse_digits limit value s ≡ some n
    → n < limit
unfolding parse_digits
parse_digits-lt limit value [] n h e = ground arith
parse_digits-lt limit value (c ∷ s) n h e =
    ground (arith, parse_digits-lt limit (value * 10 + (c - b'0')) s n)

pub parse_uint-lt :
    (limit : ℕ) (s : Text) (n : ℕ) → 0 < limit → parse_uint limit s ≡ some n → n < limit
unfolding parse_uint
parse_uint-lt limit [] n h e = cc
parse_uint-lt limit (c ∷ []) n h e = ground (arith, parse_digits-lt limit 0 (c ∷ []) n h)
parse_uint-lt limit (c ∷ d ∷ s) n h e =
    ground (arith, parse_digits-lt limit 0 (d ∷ s) n h, parse_digits-lt limit 0 (c ∷ d ∷ s) n h)

-- A number in decimal, of as many digits as the fuel allows.
unfoldable pub digits : ℕ → ℕ → Text
digits zero n = []
digits (suc fuel) n =
    let front = digits fuel (n / 10) in
    if ltb n 10 then (b'0' + n) ∷ [] else front ++ (b'0' + n % 10) ∷ []

-- `n.to_string()`
abbrev pub decimal : ℕ → Text
decimal n = digits (suc n) n

reading : ℕ → Text → ℕ
reading value [] = value
reading value (c ∷ s) = reading (value * 10 + (c - b'0')) s

reading-append : (value : ℕ) (s t : Text) → reading value (s ++ t) ≡ reading (reading value s) t
unfolding reading
reading-append value [] t = refl
reading-append value (c ∷ s) t = reading-append (value * 10 + (c - b'0')) s t

ltb-false : (m n : ℕ) → ltb m n ≡ false → n ≤ m
ltb-false m n e = ground arith

reading-digits : (fuel n : ℕ) → n < fuel → reading 0 (digits fuel n) ≡ n
unfolding reading digits
reading-digits zero n h = omega (arith, h)
reading-digits (suc fuel) n h = elim (Bool-cases (ltb n 10)) [
  | inl e ↦ rw e (omega arith)
  | inr e ↦
      let ih = reading-digits fuel (n / 10) (omega (arith, ltb-false n 10 e)) in
      rw (e, reading-append 0 (digits fuel (n / 10)) ((b'0' + n % 10) ∷ []), ih) (omega arith)
]

-- Two numbers are printed alike only if they are one.
pub decimal-injective : (m n : ℕ) → decimal m ≡ decimal n → m ≡ n
decimal-injective m n e =
    sym (reading-digits (suc m) m (omega arith))
    ∙ ap (reading 0) e
    ∙ reading-digits (suc n) n (omega arith)

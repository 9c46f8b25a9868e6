-- ===== src/Sieve/Vacation.antt =====
-- backend/src/sieve/generator.rs: `generate_script` and `stuff_dots`; backend/src/db/vacation.rs: the
-- responder's record. The interval is an `i64`, whose sums here stay far below the limit.
use rav.Common.{
  join, decimal, ℕ, ◌+◌, ◌-◌, ◌/◌, ◌%◌, Bool, false, Option, none, some, List, [], ◌∷◌, ◌++◌, ltb,
  ◌==◌, if◌then◌else◌, Text, codes, map,
}
use rav.Filters.{FilterRule}
use rav.Sieve.Quoting.{escape_sieve}
use rav.Sieve.Rules.{generate_sieve_script}

-- A signed number: `negsuc n` is -(n + 1).
pub data ℤ : Type 0 where
  pos : ℕ → ℤ
  negsuc : ℕ → ℤ

pub record VacationResponder : Type 0 where
  pub enabled : Bool
  pub subject : Text
  pub body : Text
  pub start_date : Option Text
  pub end_date : Option Text
  pub reply_interval_hours : ℤ

abbrev div_euclid : ℤ → ℕ → ℤ
div_euclid (pos n) d = pos (n / d)
div_euclid (negsuc n) d = negsuc (n / d)

abbrev rem_euclid : ℤ → ℕ → ℕ
rem_euclid (pos n) d = n % d
rem_euclid (negsuc n) d = d - 1 - n % d

-- `.max(0)`
abbrev at_least_zero : ℤ → ℕ
at_least_zero (pos n) = n
at_least_zero (negsuc n) = 0

unfoldable pub reply_days : ℤ → ℕ
reply_days hours =
    let days =
      at_least_zero (div_euclid hours 24) + (if ltb 0 (rem_euclid hours 24) then 1 else 0) in
    if ltb days 1 then 1 else days

abbrev pub on_first : ℕ → List Text → List Text
on_first c [] = (c ∷ []) ∷ []
on_first c (line ∷ others) = (c ∷ line) ∷ others

abbrev pub starts_line_feed : Text → Bool
starts_line_feed [] = false
starts_line_feed (c ∷ s) = c == b'\n'

-- `str::lines`: a line ends at a line feed, and loses a carriage return that stands before it.
unfoldable pub lines : Text → List Text
lines [] = []
lines (c ∷ s) =
    let others = lines s in
    if c == b'\n'
    then [] ∷ others
    else if c == b'\r'
    then if starts_line_feed s then others else on_first c others
    else on_first c others

abbrev pub stuffed : Text → Text
stuffed [] = []
stuffed (c ∷ line) = if c == b'.' then b'.' ∷ c ∷ line else c ∷ line

unfoldable pub stuff_dots : Text → Text
stuff_dots body = join (b'\n' ∷ []) (map stuffed (lines body))

abbrev guard_of : Text → Option Text → List Text
guard_of relation none = []
guard_of relation (some date) =
    (codes "currentdate :value \""
      ++ relation
      ++ codes "\" \"date\" \""
      ++ escape_sieve date
      ++ codes "\"")
    ∷ []

unfoldable pub guards : VacationResponder → List Text
guards v = guard_of (codes "ge") v.start_date ++ guard_of (codes "le") v.end_date

abbrev vacation_extensions : List Text → List Text
vacation_extensions [] = codes "\"vacation\"" ∷ []
vacation_extensions (g ∷ gs) = codes "\"vacation\"" ∷ codes "\"date\"" ∷ codes "\"relational\"" ∷ []

unfoldable pub action_of : VacationResponder → Text
action_of v =
    codes "vacation :days "
    ++ decimal (reply_days v.reply_interval_hours)
    ++ codes " :subject \""
    ++ escape_sieve v.subject
    ++ codes "\" text:\n"
    ++ stuff_dots v.body
    ++ codes "\n.\n;"

abbrev vacation_block : List Text → Text → Text
vacation_block [] action = action
vacation_block (g ∷ gs) action =
    codes "if allof ("
    ++ join (codes ",\n          ") (g ∷ gs)
    ++ codes ") {\n  "
    ++ action
    ++ codes "\n}"

unfoldable pub vacation_part : VacationResponder → Text
vacation_part v =
    codes "\n# --- out of office (generated by Altacee Mail) ---\n"
    ++ codes "require ["
    ++ join (codes ", ") (vacation_extensions (guards v))
    ++ codes "];\n"
    ++ vacation_block (guards v) (action_of v)
    ++ codes "\n"

unfoldable pub generate_script : List FilterRule → Option VacationResponder → Text
generate_script rules none = generate_sieve_script rules
generate_script rules (some v) =
    if v.enabled
    then generate_sieve_script rules ++ vacation_part v
    else generate_sieve_script rules

-- ===== src/Sieve/Tests.antt =====
-- Sieve scripts on concrete data.
use rav.Common.{replace, join, ◌≡◌, refl, true, false, none, some, [], ◌∷◌, ◌++◌, Text, codes, Memᴰ}
use rav.Filters.{FilterCondition, FilterRule}
use rav.Sieve.Quoting.{
  escape_sieve, escape_sieve_glob, read_quoted, read_from, read_quoted-escape_sieve,
  read_quoted-escape_sieve_glob,
}
use rav.Sieve.Rules.{
  block_of, action_to_sieve, condition_to_sieve, is_sieve_capable, field_to_header, string_to_sieve,
  generate_sieve_script,
}
use rav.Sieve.Vacation.{pos, VacationResponder, stuff_dots, lines, generate_script}
use rav.Sieve.Dropped.{HasBlock, require_after_if}
use rav.Sieve.Literal.{ended, at_least_one, split, read_literal, read_literal-stuff_dots}

abbrev from_boss : FilterCondition
from_boss = record { field = "from"; op = "contains"; value = codes "boss" }

abbrev by_regex : FilterCondition
by_regex = record { field = "subject"; op = "matches_regex"; value = codes "^spam" }

abbrev rule : FilterRule
rule = record {
  id = "a";
  name = codes "Junk";
  enabled = true;
  priority = 0;
  conditions = from_boss ∷ by_regex ∷ [];
  match_mode = "all";
  actions = record { action_type = "delete"; action_value = none } ∷ [];
  stop_processing = false;
  created_at = 1;
  updated_at = 1;
}

abbrev away : VacationResponder
away = record {
  enabled = true;
  subject = codes "Away";
  body = codes "first\n.\nlast";
  start_date = none;
  end_date = none;
  reply_interval_hours = pos 30;
}

-- The condition on the subject is not in the script, though the rule asks for both.
widened :
    generate_sieve_script (rule ∷ [])
    ≡ codes
        "require [\"fileinto\"];\n\nif allof(header :contains \"From\" \"boss\") {\n    fileinto \"Trash\";\n}\n\n"
unfolding generate_sieve_script block_of condition_to_sieve is_sieve_capable string_to_sieve
    field_to_header escape_sieve replace action_to_sieve join
widened = refl

read_quoted-escape_sieve_example :
    read_quoted (escape_sieve (codes "a\"b\\") ++ b'"' ∷ codes ";")
    ≡ some (codes "a\"b\\", codes ";")
read_quoted-escape_sieve_example = read_quoted-escape_sieve (codes "a\"b\\") (codes ";")

star_read : read_quoted (codes "*\"") ≡ some (codes "*", [])
unfolding read_from
star_read = refl

read_quoted-escape_sieve_glob_example :
    read_quoted (escape_sieve_glob (codes "a*b") ++ codes "*\"") ≡ some (codes "a*b*", [])
read_quoted-escape_sieve_glob_example =
    read_quoted-escape_sieve_glob (codes "a*b") (codes "*\"") [] (codes "*") star_read

rule-HasBlock : HasBlock rule (rule ∷ [])
unfolding condition_to_sieve is_sieve_capable string_to_sieve field_to_header
rule-HasBlock = (Memᴰ.head refl, refl, λ e. cc)

require_after_if_example :
    (before : Text) × (middle : Text) × (after : Text) × (generate_script (rule ∷ []) (some away)
      ≡ before ++ codes "if " ++ middle ++ codes "\nrequire [" ++ after)
require_after_if_example = require_after_if rule (rule ∷ []) away rule-HasBlock refl

read_literal-stuff_dots_example :
    read_literal (split (stuff_dots (codes "first\n.\nlast") ++ ended (codes ";")))
    ≡ some (at_least_one (lines (codes "first\n.\nlast")), split (codes ";"))
read_literal-stuff_dots_example = read_literal-stuff_dots (codes "first\n.\nlast") (codes ";")

-- ===== src/Sieve/Rules.antt =====
-- backend/src/sieve/generator.rs: `is_sieve_capable` and `generate_sieve_script`.
use rav.Common.{
  join, ℕ, ◌^◌, String, Bool, not, ◌&&◌, ◌||◌, Option, none, some, List, [], ◌∷◌, ◌++◌,
  if◌then◌else◌, str_eq, any, keep, Text, codes, parse_uint, decimal, map, filter_map,
}
use rav.Filters.{FilterCondition, FilterAction, FilterRule}
use rav.Sieve.Quoting.{escape_sieve, escape_sieve_glob}

unfoldable pub is_sieve_capable : FilterRule → Bool
is_sieve_capable rule =
    let bad_condition = any (λ c. str_eq c.field "body") rule.conditions in
    let bad_action = any (λ a. str_eq a.action_type "tag") rule.actions in
    not bad_condition && not bad_action

unfoldable pub field_to_header : String → Option Text
field_to_header field =
    if str_eq field "from"
    then some (codes "From")
    else if str_eq field "to"
    then some (codes "To")
    else if str_eq field "cc"
    then some (codes "Cc")
    else if str_eq field "subject"
    then some (codes "Subject")
    else none

abbrev quote : Text
quote = b'"' ∷ []

-- `{test} "{header}" "{value}"`
abbrev header_test : String → Text → Text → Text
header_test test header value =
    codes test ++ codes " \"" ++ header ++ codes "\" \"" ++ value ++ quote

-- The `match` on the operator in `condition_to_sieve`.
unfoldable pub string_to_sieve : Bool → String → Text → Text → Option Text
string_to_sieve is_address op header v =
    if str_eq op "contains"
    then some (header_test "header :contains" header (escape_sieve v))
    else if str_eq op "not_contains"
    then some (header_test "not header :contains" header (escape_sieve v))
    else if str_eq op "equals" && is_address
    then some (header_test "address :is" header (escape_sieve v))
    else if str_eq op "not_equals" && is_address
    then some (header_test "not address :is" header (escape_sieve v))
    else if str_eq op "equals"
    then some (header_test "header :is" header (escape_sieve v))
    else if str_eq op "not_equals"
    then some (header_test "not header :is" header (escape_sieve v))
    else if str_eq op "starts_with"
    then some (header_test "header :matches" header (escape_sieve_glob v ++ b'*' ∷ []))
    else if str_eq op "ends_with"
    then some (header_test "header :matches" header (b'*' ∷ escape_sieve_glob v))
    else none

abbrev pub size_test : String → Option ℕ → Option Text
size_test op none = none
size_test op (some n) =
    if str_eq op "greater_than"
    then some (codes "size :over " ++ decimal n)
    else if str_eq op "less_than"
    then some (codes "size :under " ++ decimal n)
    else none

abbrev pub on_header : Bool → String → Text → Option Text → Option Text
on_header is_address op v none = none
on_header is_address op v (some header) = string_to_sieve is_address op header v

unfoldable pub condition_to_sieve : FilterCondition → Option Text
condition_to_sieve cond =
    let is_address = str_eq cond.field "from" || str_eq cond.field "to" || str_eq cond.field "cc" in
    if str_eq cond.field "has_attachment"
    then some (codes "header :contains \"Content-Type\" \"multipart/\"")
    else if str_eq cond.field "is_reply"
    then some (codes "exists \"In-Reply-To\"")
    else if str_eq cond.field "size"
    then size_test cond.op (parse_uint (2 ^ 64) cond.value)
    else on_header is_address cond.op cond.value (field_to_header cond.field)

abbrev with_value : String → Option Text → Option Text
with_value command none = none
with_value command (some value) =
    some (codes command ++ codes " \"" ++ escape_sieve value ++ codes "\";")

unfoldable pub action_to_sieve : FilterAction → Option Text
action_to_sieve action =
    if str_eq action.action_type "mark_read"
    then some (codes "addflag \"\\\\Seen\";")
    else if str_eq action.action_type "mark_starred"
    then some (codes "addflag \"\\\\Flagged\";")
    else if str_eq action.action_type "move"
    then with_value "fileinto" action.action_value
    else if str_eq action.action_type "delete"
    then some (codes "fileinto \"Trash\";")
    else if str_eq action.action_type "forward"
    then with_value "redirect" action.action_value
    else none

abbrev pub action_lines : List FilterAction → Text
action_lines [] = []
action_lines (action ∷ actions) = elim (action_to_sieve action) [
  | none ↦ action_lines actions
  | some line ↦ codes "    " ++ line ++ codes "\n" ++ action_lines actions
]

abbrev pub test_of : String → List Text → Text
test_of match_mode [] = []
test_of match_mode (one ∷ []) = codes "allof(" ++ one ++ codes ")"
test_of match_mode (one ∷ two ∷ tests) =
    let joined = join (codes ", ") (one ∷ two ∷ tests) in
    (if str_eq match_mode "any" then codes "anyof(" else codes "allof(") ++ joined ++ codes ")"

-- The body of the loop over the rules, for the tests that the conditions have become.
unfoldable pub block_of : FilterRule → List Text → Text
block_of rule [] = []
block_of rule (one ∷ tests) =
    codes "if "
    ++ test_of rule.match_mode (one ∷ tests)
    ++ codes " {\n"
    ++ action_lines rule.actions
    ++ (if rule.stop_processing then codes "    stop;\n" else [])
    ++ codes "}\n\n"

abbrev pub rule_block : FilterRule → Text
rule_block rule = block_of rule (filter_map condition_to_sieve rule.conditions)

abbrev pub blocks : List FilterRule → Text
blocks [] = []
blocks (rule ∷ rules) = rule_block rule ++ blocks rules

abbrev pub capable_rules : List FilterRule → List FilterRule
capable_rules = keep (λ r. r.enabled && is_sieve_capable r)

abbrev has_action : String → String → List FilterRule → Bool
has_action one other =
    any (λ r. any (λ a. str_eq a.action_type one || str_eq a.action_type other) r.actions)

abbrev pub extensions : List FilterRule → List Text
extensions capable =
    (if has_action "move" "delete" capable then codes "fileinto" ∷ [] else [])
    ++ (if has_action "mark_read" "mark_starred" capable then codes "imap4flags" ∷ [] else [])

abbrev pub require_line : List Text → Text
require_line [] = []
require_line (e ∷ exts) =
    codes "require ["
    ++ join (codes ", ") (map (λ x. quote ++ x ++ quote) (e ∷ exts))
    ++ codes "];\n\n"

abbrev pub script_of : List FilterRule → Text
script_of [] = codes "# rav-filters\n"
script_of (r ∷ rules) = require_line (extensions (r ∷ rules)) ++ blocks (r ∷ rules)

unfoldable pub generate_sieve_script : List FilterRule → Text
generate_sieve_script rules = script_of (capable_rules rules)

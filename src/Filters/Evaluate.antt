-- ===== src/Filters/Evaluate.antt =====
-- backend/src/db/filters.rs: `eval_condition`, `string_matches` and the loop of `matching_rules`.
use rav.Common.{
  ℕ, ◌^◌, String, Bool, true, false, not, Option, none, some, List, [], ◌∷◌, ltb, if◌then◌else◌,
  str_eq, any, all, Text, text_eq, contains, starts_with, ends_with, parse_uint, unwrap_or,
}
use rav.Filters.{FilterCondition, FilterRule, MessageContext}

-- `str::to_lowercase`, and `Regex::new` with `is_match`: none where the pattern does not compile.
pub record Matcher : Type 0 where
  pub to_lowercase : Text → Text
  pub regex : Text → Option (Text → Bool)

abbrev pub is_match : Option (Text → Bool) → Text → Bool
is_match none haystack = false
is_match (some re) haystack = re haystack

abbrev pub is_empty : List FilterCondition → Bool
is_empty [] = true
is_empty (_ ∷ _) = false

module _ (m : Matcher) where
  unfoldable pub string_matches : Text → String → Text → Bool
  string_matches haystack op needle =
      let h = m.to_lowercase haystack in
      let n = m.to_lowercase needle in
      if str_eq op "contains"
      then contains h n
      else if str_eq op "not_contains"
      then not (contains h n)
      else if str_eq op "equals"
      then text_eq h n
      else if str_eq op "not_equals"
      then not (text_eq h n)
      else if str_eq op "starts_with"
      then starts_with h n
      else if str_eq op "ends_with"
      then ends_with h n
      else if str_eq op "matches_regex"
      then is_match (m.regex needle) haystack
      else false

  unfoldable pub size_matches : ℕ → String → Text → Bool
  size_matches size op value =
      let threshold = unwrap_or (parse_uint (2 ^ 32) value) 0 in
      if str_eq op "greater_than"
      then ltb threshold size
      else if str_eq op "less_than"
      then ltb size threshold
      else false

  unfoldable pub eval_condition : MessageContext → FilterCondition → Bool
  eval_condition ctx c =
      if str_eq c.field "from"
      then string_matches ctx.from_address c.op c.value
      else if str_eq c.field "to"
      then string_matches ctx.to_addresses c.op c.value
      else if str_eq c.field "cc"
      then string_matches ctx.cc_addresses c.op c.value
      else if str_eq c.field "subject"
      then string_matches ctx.subject c.op c.value
      else if str_eq c.field "body"
      then string_matches ctx.body_snippet c.op c.value
      else if str_eq c.field "has_attachment"
      then ctx.has_attachments
      else if str_eq c.field "is_reply"
      then ctx.is_reply
      else if str_eq c.field "size"
      then size_matches ctx.size c.op c.value
      else false

  abbrev pub does_match : MessageContext → FilterRule → Bool
  does_match ctx rule =
      if str_eq rule.match_mode "any"
      then any (eval_condition ctx) rule.conditions
      else all (eval_condition ctx) rule.conditions

  -- The loop of `matching_rules`, over the listed rules.
  unfoldable pub matching : MessageContext → List FilterRule → List FilterRule
  matching ctx [] = []
  matching ctx (rule ∷ rules) =
      let rest = matching ctx rules in
      if not rule.enabled
      then rest
      else if is_empty rule.conditions
      then rule ∷ rest
      else if does_match ctx rule
      then rule ∷ rest
      else rest

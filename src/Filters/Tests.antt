-- ===== src/Filters/Tests.antt =====
-- Filter rules on concrete data.
use rav.Common.{
  ◌≡◌, ◌≢◌, refl, inl, leb, ◌&&◌, true, false, none, some, List, [], ◌∷◌, All, Text, codes, map,
  Memᴰ, ok, IsSortedBy, ◌↔◌, ◌+◌, if◌then◌else◌, sort_by, insert_by, contains, starts_with,
}
use rav.Filters.{FilterAction, FilterRule, CreateFilterRule, UpdateFilterRule, MessageContext}
use rav.Filters.Validate.{
  validate_each, validate_value, legacy_action, validate_actions, IsValid, validate_actions-IsValid,
}
use rav.Filters.Evaluate.{Matcher, matching, eval_condition, string_matches}
use rav.Filters.Store.{
  FilterTable, new_row, list_filters, find_row, create_filter, matching_rules, insert_row,
  parse_rule, Request, create, serve_all,
}
use rav.Filters.Matching.{Meets, matching_rules_iff}
use rav.Filters.Storage.{served-IsAccepted}

-- Lower-casing of ASCII, and a `regex` crate that compiles nothing.
abbrev ascii_lower : Text → Text
ascii_lower = map (λ c. if leb b'A' c && leb c b'Z' then c + 32 else c)

abbrev ascii : Matcher
ascii = record { to_lowercase = ascii_lower; regex = λ _. none }

abbrev junk : FilterAction
junk = record { action_type = "move"; action_value = some (codes "Junk") }

abbrev spam : CreateFilterRule
spam = record {
  name = codes "Spam";
  enabled = true;
  priority = 7;
  conditions = record { field = "from"; op = "contains"; value = codes "SPAM" } ∷ [];
  match_mode = "all";
  actions = junk ∷ [];
  stop_processing = false;
}

abbrev everything : CreateFilterRule
everything = record spam { priority = 3; conditions = [] }

abbrev from_spam : MessageContext
from_spam = record {
  from_address = codes "spam@evil.com";
  to_addresses = [];
  cc_addresses = [];
  subject = [];
  body_snippet = [];
  size = 1024;
  has_attachments = false;
  is_reply = false;
}

abbrev requests : List Request
requests = create "a" 1 spam ∷ create "b" 2 everything ∷ []

abbrev two_rows : FilterTable
two_rows = new_row "a" 1 spam ∷ new_row "b" 2 everything ∷ []

two_served : serve_all requests [] ≡ two_rows
unfolding create_filter validate_actions validate_each validate_value insert_row find_row parse_rule
    legacy_action
two_served = refl

both_match : map (λ r. r.id) (matching_rules ascii from_spam two_rows) ≡ "b" ∷ "a" ∷ []
unfolding matching list_filters sort_by insert_by parse_rule eval_condition string_matches contains
    starts_with
both_match = refl

absent : find_row "c" two_rows ≡ none
unfolding find_row
absent = refl

held : find_row "a" two_rows ≡ some (new_row "a" 1 spam)
unfolding find_row
held = refl

junk-IsValid : All IsValid (junk ∷ [])
junk-IsValid = (inl (inl refl, λ e. cc), tt)

validate_actions-IsValid_example :
    (validate_actions (junk ∷ []) ≡ ok tt) ↔ ((junk ∷ [] ≢ []) × All IsValid (junk ∷ []))
validate_actions-IsValid_example = validate_actions-IsValid (junk ∷ [])

matching_rules_iff_example :
    ((r : FilterRule)
      → Memᴰ r (matching_rules ascii from_spam two_rows)
        ↔ (Memᴰ r (list_filters two_rows) × (r.enabled ≡ true) × Meets ascii from_spam r))
    × IsSortedBy (λ r. r.priority) (matching_rules ascii from_spam two_rows)
matching_rules_iff_example = matching_rules_iff ascii from_spam two_rows

served-IsAccepted_example :
    All (λ r. (r.actions ≢ []) × All IsValid r.actions) (list_filters (serve_all requests []))
served-IsAccepted_example = served-IsAccepted requests

abbrev disabled : UpdateFilterRule
disabled = record {
  name = none;
  enabled = some false;
  priority = none;
  conditions = none;
  match_mode = none;
  actions = some (junk ∷ []);
  stop_processing = none;
}

junk_accepted : validate_actions (junk ∷ []) ≡ ok tt
junk_accepted = (validate_actions-IsValid (junk ∷ [])).1 ((λ e. cc), junk-IsValid)

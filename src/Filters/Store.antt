-- ===== src/Filters/Store.antt =====
-- backend/src/db/filters.rs: the table `filter_rules` and the functions on it. A stored row keeps the
-- columns of an older schema, `action_type` and `action_value`, beside the list of actions.
use rav.Common.{
  ℕ, ◌+◌, ◌^◌, String, Bool, ◌&&◌, true, false, Option, none, some, List, [], ◌∷◌, ◌++◌,
  if◌then◌else◌, str_eq, Text, sort_by, Result, ok, err, ◌>>=◌, unwrap_or, map,
}
use rav.Filters.{
  FilterCondition, FilterAction, FilterRule, CreateFilterRule, UpdateFilterRule, MessageContext,
}
use rav.Filters.Validate.{
  FilterError, insert_failed, not_retrieved, Checked, validate_actions, legacy_action,
}
use rav.Filters.Evaluate.{Matcher, matching}

pub record FilterRow : Type 0 where
  pub id : String
  pub name : Text
  pub enabled : Bool
  pub priority : ℕ
  pub conditions : List FilterCondition
  pub action_type : String
  pub action_value : Option Text
  pub match_mode : String
  pub stop_processing : Bool
  pub actions : List FilterAction
  pub created_at : ℕ
  pub updated_at : ℕ

abbrev pub FilterTable : Type 0
FilterTable = List FilterRow

abbrev pub actions_or_legacy : String → Option Text → List FilterAction → List FilterAction
actions_or_legacy type value [] = record { action_type = type; action_value = value } ∷ []
actions_or_legacy type value (a ∷ actions) = a ∷ actions

unfoldable pub parse_rule : FilterRow → FilterRule
parse_rule row = record {
  id = row.id;
  name = row.name;
  enabled = row.enabled;
  priority = row.priority;
  conditions = row.conditions;
  match_mode = row.match_mode;
  actions = actions_or_legacy row.action_type row.action_value row.actions;
  stop_processing = row.stop_processing;
  created_at = row.created_at;
  updated_at = row.updated_at;
}

unfoldable pub list_filters : FilterTable → List FilterRule
list_filters rows = map parse_rule (sort_by (λ r. r.priority) (sort_by (λ r. r.created_at) rows))

unfoldable pub find_row : String → FilterTable → Option FilterRow
find_row id [] = none
find_row id (row ∷ rows) =
    let rest = find_row id rows in if str_eq row.id id then some row else rest

abbrev pub parsed : Option FilterRow → Option FilterRule
parsed none = none
parsed (some row) = some (parse_rule row)

abbrev pub get_filter : String → FilterTable → Option FilterRule
get_filter id rows = parsed (find_row id rows)

abbrev pub new_row : String → ℕ → CreateFilterRule → FilterRow
new_row id now given = record {
  id = id;
  name = given.name;
  enabled = given.enabled;
  priority = given.priority;
  conditions = given.conditions;
  action_type = (legacy_action given.actions).0;
  action_value = (legacy_action given.actions).1;
  match_mode = given.match_mode;
  stop_processing = given.stop_processing;
  actions = given.actions;
  created_at = now;
  updated_at = now;
}

-- `INSERT`, which the primary key refuses for an id that is there.
unfoldable pub insert_row : FilterRow → FilterTable → Result FilterTable FilterError
insert_row row rows = elim (find_row row.id rows) [
  | none ↦ ok (rows ++ row ∷ [])
  | some _ ↦ err insert_failed
]

abbrev retrieved : FilterTable → Option FilterRule → Result (FilterRule × FilterTable) FilterError
retrieved rows none = err not_retrieved
retrieved rows (some rule) = ok (rule, rows)

-- `id` is the fresh UUID, `now` the column's default for both times.
unfoldable pub create_filter :
    String → ℕ → CreateFilterRule → FilterTable → Result (FilterRule × FilterTable) FilterError
create_filter id now given rows = validate_actions given.actions >>= (λ _.
    insert_row (new_row id now given) rows >>= (λ stored. retrieved stored (get_filter id stored)))

unfoldable pub update_rows : String → (FilterRow → FilterRow) → FilterTable → FilterTable
update_rows id f [] = []
update_rows id f (row ∷ rows) = (if str_eq row.id id then f row else row) ∷ update_rows id f rows

abbrev set_actions : Option (List FilterAction) → FilterRow → FilterRow
set_actions none row = row
set_actions (some actions) row = record row {
  actions = actions;
  action_type = (legacy_action actions).0;
  action_value = (legacy_action actions).1;
}

-- The columns that `UPDATE` sets, with `updated_at` among them.
unfoldable pub updated : ℕ → UpdateFilterRule → FilterRow → FilterRow
updated now given row = set_actions given.actions (record row {
  name = unwrap_or given.name row.name;
  enabled = unwrap_or given.enabled row.enabled;
  priority = unwrap_or given.priority row.priority;
  conditions = unwrap_or given.conditions row.conditions;
  match_mode = unwrap_or given.match_mode row.match_mode;
  stop_processing = unwrap_or given.stop_processing row.stop_processing;
  updated_at = now;
})

abbrev pub validate_given : Option (List FilterAction) → Checked
validate_given none = ok tt
validate_given (some actions) = validate_actions actions

-- `sets.is_empty()`: nothing is given.
abbrev is_nothing {ℓ} : {A : Type ℓ} → Option A → Bool
is_nothing none = true
is_nothing (some _) = false

abbrev pub sets_is_empty : UpdateFilterRule → Bool
sets_is_empty given =
    is_nothing given.name
    && is_nothing given.enabled
    && is_nothing given.priority
    && is_nothing given.conditions
    && is_nothing given.match_mode
    && is_nothing given.actions
    && is_nothing given.stop_processing

unfoldable pub update_filter :
    String
    → ℕ
    → UpdateFilterRule
    → FilterTable
    → Result (Option FilterRule × FilterTable) FilterError
update_filter id now given rows = validate_given given.actions >>= (λ _.
    if sets_is_empty given
    then ok (get_filter id rows, rows)
    else (let stored = update_rows id (updated now given) rows in
        ok (get_filter id stored, stored)))

unfoldable pub delete_filter : String → FilterTable → Bool × FilterTable
delete_filter id [] = (false, [])
delete_filter id (row ∷ rows) =
    let (found, rest) = delete_filter id rows in
    if str_eq row.id id then (true, rest) else (found, row ∷ rest)

abbrev pub moved : ℕ → ℕ → FilterRow → FilterRow
moved now priority row = record row { priority = priority; updated_at = now }

-- The loop of `reorder_filters`, whose counter starts at `i`; 2^63 is the shift of priorities.
unfoldable pub reorder_from : ℕ → ℕ → List String → FilterTable → FilterTable
reorder_from i now [] rows = rows
reorder_from i now (id ∷ ids) rows =
    reorder_from (i + 1) now ids (update_rows id (moved now (2 ^ 63 + i)) rows)

abbrev pub reorder_filters : ℕ → List String → FilterTable → FilterTable
reorder_filters = reorder_from 0

abbrev pub matching_rules : Matcher → MessageContext → FilterTable → List FilterRule
matching_rules m ctx rows = matching m ctx (list_filters rows)

-- One request of the filter routes. An answer with an error leaves the table as it was.
pub data Request : Type 0 where
  create : String → ℕ → CreateFilterRule → Request
  update : String → ℕ → UpdateFilterRule → Request
  delete : String → Request
  reorder : ℕ → List String → Request

abbrev table_or {ℓ} :
    {A : Type ℓ} → FilterTable → Result (A × FilterTable) FilterError → FilterTable
table_or rows (ok (_, stored)) = stored
table_or rows (err _) = rows

abbrev pub serve : Request → FilterTable → FilterTable
serve (create id now given) rows = table_or rows (create_filter id now given rows)
serve (update id now given) rows = table_or rows (update_filter id now given rows)
serve (delete id) rows = (delete_filter id rows).1
serve (reorder now ids) rows = reorder_filters now ids rows

abbrev pub serve_all : List Request → FilterTable → FilterTable
serve_all [] rows = rows
serve_all (request ∷ requests) rows = serve_all requests (serve request rows)

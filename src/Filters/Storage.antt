-- ===== src/Filters/Storage.antt =====
-- backend/src/db/filters.rs: what the table holds after each change, and in every table there can be.
use rav.Common.{
  ℕ, ◌+◌, ◌≡◌, ◌≢◌, refl, ap, inl, inr, Bool-cases, Option-cases, Result-cases, String, Option,
  none, some, List, [], ◌∷◌, ◌++◌, arith, if◌then◌else◌, str_eq, eq_iff, eq_refl, All, All-append,
  All-sort_by, map, ok,
}
use rav.Filters.{FilterAction, FilterRule, CreateFilterRule, UpdateFilterRule}
use rav.Filters.Validate.{validate_actions, IsValid, validate_actions-IsValid}
use rav.Filters.Store.{
  FilterRow, FilterTable, parse_rule, actions_or_legacy, list_filters, validate_given,
  sets_is_empty, find_row, parsed, get_filter, new_row, insert_row, create_filter, update_rows,
  updated, update_filter, delete_filter, reorder_from, Request, create, update, delete, reorder,
  serve, serve_all,
}

pub find_row-id :
    (id : String) (rows : FilterTable) (r : FilterRow) → find_row id rows ≡ some r → r.id ≡ id
unfolding find_row
find_row-id id [] r e = cc
find_row-id id (x ∷ rows) r e = ground (arith, eq_iff x.id id, find_row-id id rows r)

find_row-append :
    (id : String) (rows : FilterTable) (r : FilterRow)
    → find_row id (rows ++ r ∷ [])
      ≡ elim (find_row id rows) [ none ↦ if str_eq r.id id then some r else none | some x ↦ some x ]
unfolding find_row
find_row-append id [] r = refl
find_row-append id (x ∷ rows) r = ground (arith, find_row-append id rows r)

pub find_row-update :
    (id other : String) (f : FilterRow → FilterRow) (rows : FilterTable)
    → ((r : FilterRow) → (f r).id ≡ r.id)
    → find_row other (update_rows id f rows) ≡ elim (find_row other rows) [
      | none ↦ none
      | some r ↦ some (if str_eq id other then f r else r)
    ]
unfolding find_row update_rows
find_row-update id other f [] h = refl
find_row-update id other f (x ∷ rows) h = ground (
  arith,
  h x,
  eq_iff id other,
  eq_iff x.id id,
  eq_iff x.id other,
  eq_iff (f x).id other,
  find_row-update id other f rows h,
)

-- The rule that a request to create asks for.
abbrev pub created : String → ℕ → CreateFilterRule → FilterRule
created id now given = record {
  id = id;
  name = given.name;
  enabled = given.enabled;
  priority = given.priority;
  conditions = given.conditions;
  match_mode = given.match_mode;
  actions = given.actions;
  stop_processing = given.stop_processing;
  created_at = now;
  updated_at = now;
}

actions_kept :
    (type : String) (value : Option _) (actions : List FilterAction)
    → actions ≢ []
    → actions_or_legacy type value actions ≡ actions
actions_kept type value [] h = absurd (h refl)
actions_kept type value (a ∷ actions) h = refl

parse_rule-new_row :
    (id : String) (now : ℕ) (given : CreateFilterRule)
    → given.actions ≢ []
    → parse_rule (new_row id now given) ≡ created id now given
unfolding parse_rule
parse_rule-new_row id now given h = rw (actions_kept _ _ given.actions h) refl

-- With a fresh id and actions that are accepted, the rule that `create_filter` answers is the one asked
-- for, it is what `get_filter` then finds, and every other id answers as before.
pub get_filter-create_filter :
    (id : String) (now : ℕ) (given : CreateFilterRule) (rows : FilterTable)
    → find_row id rows ≡ none
    → given.actions ≢ []
    → All IsValid given.actions
    → (stored : FilterTable) × (create_filter id now given rows ≡ ok (created id now given, stored))
      × (get_filter id stored ≡ some (created id now given))
      × ((other : String) → other ≢ id → get_filter other stored ≡ get_filter other rows)
unfolding create_filter insert_row
get_filter-create_filter id now given rows fresh some_action valid =
    let row = new_row id now given in
    let accepted = (validate_actions-IsValid given.actions).1 (some_action, valid) in
    let found : get_filter id (rows ++ row ∷ []) ≡ some (created id now given) =
      rw (find_row-append id rows row)
        (rw fresh (rw (eq_refl id) (ap some (parse_rule-new_row id now given some_action)))) in
    (
      rows ++ row ∷ [],
      rw accepted (rw (fresh, insert_row) (rw found refl)),
      found,
      λ other h. rw (find_row-append other rows row) (rest other h (find_row other rows)),
    )
  where
    rest :
        (other : String)
        → other ≢ id
        → (o : Option FilterRow)
        → parsed (elim o [
          | none ↦ if str_eq id other then some (new_row id now given) else none
          | some x ↦ some x
        ])
          ≡ parsed o
    rest other h none = ground (arith, eq_iff id other)
    rest other h (some x) = refl

-- The actions of a row were accepted, and its older columns hold the first of them.
abbrev pub IsAccepted : FilterRow → Type 0
IsAccepted r = (r.actions ≢ []) × All IsValid r.actions

update_rows-IsAccepted :
    (id : String) (f : FilterRow → FilterRow) (rows : FilterTable)
    → ((r : FilterRow) → IsAccepted r → IsAccepted (f r))
    → All IsAccepted rows
    → All IsAccepted (update_rows id f rows)
unfolding update_rows
update_rows-IsAccepted id f [] h a = tt
update_rows-IsAccepted id f (r ∷ rows) h a = (
  elim (Bool-cases (str_eq r.id id)) [ inl e ↦ rw e (h r a.0) | inr e ↦ rw e a.0 ],
  update_rows-IsAccepted id f rows h a.1,
)

create_filter-IsAccepted :
    (id : String) (now : ℕ) (given : CreateFilterRule) (rows : FilterTable)
    → All IsAccepted rows
    → All IsAccepted (serve (create id now given) rows)
unfolding create_filter insert_row
create_filter-IsAccepted id now given rows h =
    elim (Result-cases (validate_actions given.actions)) [
      | inl (_, e) ↦ rw e (elim (Option-cases (find_row id rows)) [
        | inl fresh ↦
            rw (fresh, insert_row)
              (elim (Option-cases (get_filter id stored)) [
                | inl lost ↦ rw lost h
                | inr (_, found) ↦ rw found (
                    All-append IsAccepted rows _ h
                      ((validate_actions-IsValid given.actions).0 e, tt))
              ])
        | inr (_, held) ↦ rw (held, insert_row) h
      ])
      | inr (_, e) ↦ rw e h
    ]
  where
    stored : FilterTable
    stored = rows ++ new_row id now given ∷ []

updated-IsAccepted :
    (now : ℕ) (given : UpdateFilterRule)
    → validate_given given.actions ≡ ok tt
    → (r : FilterRow) → IsAccepted r
    → IsAccepted (updated now given r)
unfolding updated
updated-IsAccepted now given e r a = elim (Option-cases given.actions) [
  | inl n ↦ rw n a
  | inr (actions, s) ↦ rw s ((validate_actions-IsValid actions).0 (rw s at e))
]

update_filter-IsAccepted :
    (id : String) (now : ℕ) (given : UpdateFilterRule) (rows : FilterTable)
    → All IsAccepted rows
    → All IsAccepted (serve (update id now given) rows)
unfolding update_filter
update_filter-IsAccepted id now given rows h = elim (Result-cases (validate_given given.actions)) [
  | inl (_, e) ↦ rw e (elim (Bool-cases (sets_is_empty given)) [
    | inl idle ↦ rw idle h
    | inr busy ↦ rw busy (update_rows-IsAccepted id _ rows (updated-IsAccepted now given e) h)
  ])
  | inr (_, e) ↦ rw e h
]

delete_filter-IsAccepted :
    (id : String) (rows : FilterTable)
    → All IsAccepted rows
    → All IsAccepted (delete_filter id rows).1
unfolding delete_filter
delete_filter-IsAccepted id [] h = tt
delete_filter-IsAccepted id (r ∷ rows) h = elim (Bool-cases (str_eq r.id id)) [
  | inl e ↦ rw e (delete_filter-IsAccepted id rows h.1)
  | inr e ↦ rw e (h.0, delete_filter-IsAccepted id rows h.1)
]

reorder_from-IsAccepted :
    (i now : ℕ) (ids : List String) (rows : FilterTable)
    → All IsAccepted rows
    → All IsAccepted (reorder_from i now ids rows)
unfolding reorder_from
reorder_from-IsAccepted i now [] rows h = h
reorder_from-IsAccepted i now (id ∷ ids) rows h =
    reorder_from-IsAccepted (i + 1) now ids _ (update_rows-IsAccepted id _ rows (λ _ a. a) h)

serve-IsAccepted :
    (request : Request) (rows : FilterTable)
    → All IsAccepted rows
    → All IsAccepted (serve request rows)
serve-IsAccepted (create id now given) rows h = create_filter-IsAccepted id now given rows h
serve-IsAccepted (update id now given) rows h = update_filter-IsAccepted id now given rows h
serve-IsAccepted (delete id) rows h = delete_filter-IsAccepted id rows h
serve-IsAccepted (reorder now ids) rows h = reorder_from-IsAccepted 0 now ids rows h

serve_all-IsAccepted :
    (requests : List Request) (rows : FilterTable)
    → All IsAccepted rows
    → All IsAccepted (serve_all requests rows)
serve_all-IsAccepted [] rows h = h
serve_all-IsAccepted (request ∷ requests) rows h =
    serve_all-IsAccepted requests _ (serve-IsAccepted request rows h)

parsed-IsAccepted :
    (rows : FilterTable)
    → All IsAccepted rows
    → All (λ r. (r.actions ≢ []) × All IsValid r.actions) (map parse_rule rows)
unfolding parse_rule
parsed-IsAccepted [] h = tt
parsed-IsAccepted (r ∷ rows) h =
    (rw (actions_kept r.action_type r.action_value r.actions h.0.0) h.0, parsed-IsAccepted rows h.1)

-- Whatever requests are served, starting from an empty table, every listed rule has at least one action
-- and all its actions are valid.
pub served-IsAccepted :
    (requests : List Request)
    → All (λ r. (r.actions ≢ []) × All IsValid r.actions) (list_filters (serve_all requests []))
unfolding list_filters
served-IsAccepted requests =
    parsed-IsAccepted _ (
      All-sort_by _ IsAccepted _ (All-sort_by _ IsAccepted _ (serve_all-IsAccepted requests [] tt)))

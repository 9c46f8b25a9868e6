-- ===== src/Filters/Changes.antt =====
-- backend/src/db/filters.rs: what `update_filter` and `reorder_filters` make of a stored row.
use mathlib.Core.Option
use rav.Common.{
  ℕ, ◌+◌, ◌^◌, ◌≡◌, ◌≢◌, refl, ap, ◌∙◌, inl, inr, Bool-cases, Option-cases, String, Bool, true,
  false, Option, none, some, List, [], ◌∷◌, ◌++◌, arith, if◌then◌else◌, str_eq, eq_iff, eq_refl,
  length, All, ok,
}
use rav.Filters.{UpdateFilterRule}
use rav.Filters.Store.{
  FilterRow, FilterTable, validate_given, sets_is_empty, find_row, get_filter, update_rows, updated,
  update_filter, moved, reorder_from, reorder_filters,
}
use rav.Filters.Storage.{find_row-update}

moved_over :
    (i now : ℕ) (ids : List String) (id : String) (rows : FilterTable)
    → All (λ x. x ≢ id) ids
    → find_row id (reorder_from i now ids rows) ≡ find_row id rows
unfolding reorder_from
moved_over i now [] id rows h = refl
moved_over i now (x ∷ ids) id rows h =
    let f = moved now (2 ^ 63 + i) in
    let same = find_row-update x id f rows (λ _. refl) in
    moved_over (i + 1) now ids id (update_rows x f rows) h.1
    ∙ same
    ∙ (elim (Option-cases (find_row id rows)) [
      | inl e ↦ rw e refl
      | inr (r, e) ↦ rw e (ground (arith, eq_iff x id, h.0))
    ])

find_row-reorder_from :
    (i now : ℕ) (before : List String) (id : String) (after : List String) (rows : FilterTable)
    (r : FilterRow)
    → All (λ x. x ≢ id) after
    → find_row id rows ≡ some r
    → find_row id (reorder_from i now (before ++ id ∷ after) rows)
      ≡ some (moved now (2 ^ 63 + (i + length before)) r)
unfolding reorder_from
find_row-reorder_from i now [] id after rows r h e =
    let f = moved now (2 ^ 63 + i) in
    moved_over (i + 1) now after id (update_rows id f rows) h
    ∙ find_row-update id id f rows (λ _. refl)
    ∙ rw e (rw (eq_refl id) (ap (λ n. some (moved now (2 ^ 63 + n) r)) (omega arith)))
find_row-reorder_from i now (x ∷ before) id after rows r h e =
    let f = moved now (2 ^ 63 + i) in
    let found = find_row-update x id f rows (λ _. refl) in
    let shift : i + 1 + length before ≡ i + length (x ∷ before) = omega arith in
    elim (Bool-cases (str_eq x id)) [
      | inl s ↦
          find_row-reorder_from (i + 1) now before id after _ (f r) h (found ∙ rw (e, s) refl)
          ∙ ap (λ n. some (moved now (2 ^ 63 + n) r)) shift
      | inr d ↦
          find_row-reorder_from (i + 1) now before id after _ r h (found ∙ rw (e, d) refl)
          ∙ ap (λ n. some (moved now (2 ^ 63 + n) r)) shift
    ]

-- After `reorder_filters` the priority of a stored rule is its place in the list of ids, the last place
-- if the id comes twice; nothing else of its row changes but the time. A row whose id is not listed
-- stays as it was.
pub find_row-reorder_filters :
    (now : ℕ) (before : List String) (id : String) (after : List String) (rows : FilterTable)
    (r : FilterRow)
    → All (λ x. x ≢ id) after
    → find_row id rows ≡ some r
    → (find_row id (reorder_filters now (before ++ id ∷ after) rows)
        ≡ some (moved now (2 ^ 63 + length before) r))
      × (All (λ x. x ≢ id) before → find_row id (reorder_filters now before rows) ≡ some r)
find_row-reorder_filters now before id after rows r h e = (
  find_row-reorder_from 0 now before id after rows r h e
      ∙ ap (λ n. some (moved now (2 ^ 63 + n) r)) (omega arith),
  λ k. moved_over 0 now before id rows k ∙ e,
)

updated-id : (now : ℕ) (given : UpdateFilterRule) (r : FilterRow) → (updated now given r).id ≡ r.id
unfolding updated
updated-id now given r = elim (Option-cases given.actions) [
  | inl n ↦ rw n refl
  | inr (actions, s) ↦ rw s refl
]

-- What `update_filter` answers if the actions given are none or accepted: the stored rule of the id with
-- the given fields in place of its own, or the stored rule itself if nothing is given; every other id
-- answers as before.
pub get_filter-update_filter :
    (id : String) (now : ℕ) (given : UpdateFilterRule) (rows : FilterTable)
    → validate_given given.actions ≡ ok tt
    → (stored : FilterTable) × (update_filter id now given rows ≡ ok (get_filter id stored, stored))
      × (find_row id stored ≡ (
          if sets_is_empty given
          then find_row id rows
          else Option.map (updated now given) (find_row id rows)))
      × ((other : String) → other ≢ id → find_row other stored ≡ find_row other rows)
unfolding update_filter
get_filter-update_filter id now given rows h =
    let changed = λ (other : String).
      find_row-update id other (updated now given) rows (updated-id now given) in
    elim (Bool-cases (sets_is_empty given)) [
      | inl e ↦ (rows, rw (h, e) refl, rw e refl, λ _ _. refl)
      | inr e ↦ (
        update_rows id (updated now given) rows,
        rw (h, e) refl,
        rw e (changed id ∙ chosen (str_eq id id) (find_row id rows) ∙ rw (eq_refl id) refl),
        λ other k.
            changed other
            ∙ chosen (str_eq id other) (find_row other rows)
            ∙ rw (differ other k) refl,
      )
    ]
  where
    chosen :
        (b : Bool) (o : Option FilterRow)
        → elim o [ none ↦ none | some r ↦ some (if b then updated now given r else r) ]
          ≡ (if b then Option.map (updated now given) o else o)
    chosen true none = refl
    chosen true (some r) = refl
    chosen false none = refl
    chosen false (some r) = refl

    differ : (other : String) → other ≢ id → str_eq id other ≡ false
    differ other k = ground (arith, eq_iff id other)

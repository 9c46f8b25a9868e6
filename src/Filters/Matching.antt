-- ===== src/Filters/Matching.antt =====
-- backend/src/db/filters.rs: which rules a message meets, by what the source's comments say of rules.
use rav.Common.{
  ℕ, ◌≤◌, ◌≡◌, ◌≢◌, ◌↔◌, ◌⊎◌, inl, inr, refl, Bool, true, ◌&&◌, ◌||◌, List, [], ◌∷◌, arith,
  Bool-cases, str_eq, eq_iff, any-true, any-mem, all, keep, All, All-keep, All-mem, Memᴰ, mem-keep,
  mem-of_keep, map, sort_by, IsSortedBy, sort_by-IsSortedBy,
}
use rav.Filters.{FilterCondition, FilterRule, MessageContext}
use rav.Filters.Evaluate.{Matcher, eval_condition, does_match, is_empty, matching}
use rav.Filters.Store.{FilterTable, parse_rule, list_filters, matching_rules}

module _ {ℓ} {A : Type ℓ} where
  all_iff : (p : A → Bool) (xs : List A) → (all p xs ≡ true) ↔ ((a : A) → Memᴰ a xs → p a ≡ true)
  all_iff p xs = (λ h a m. All-mem _ xs a (each xs h) m, λ h. gather xs h)
    where
      each : (ys : List A) → all p ys ≡ true → All (λ a. p a ≡ true) ys
      each [] h = tt
      each (y ∷ ys) h = ground (arith, each ys)

      gather : (ys : List A) → ((a : A) → Memᴰ a ys → p a ≡ true) → all p ys ≡ true
      gather [] h = refl
      gather (y ∷ ys) h = rw (h y (Memᴰ.head refl)) (gather ys (λ a m. h a (Memᴰ.tail m)))

  keep-IsSortedBy :
      (key : A → ℕ) (p : A → Bool) (xs : List A) → IsSortedBy key xs → IsSortedBy key (keep p xs)
  keep-IsSortedBy key p [] h = tt
  keep-IsSortedBy key p (x ∷ xs) h =
      ground (arith, keep-IsSortedBy key p xs h.1, All-keep (λ y. key x ≤ key y) p xs h.0)

map-IsSortedBy {ℓ κ} :
    {A : Type ℓ} {B : Type κ} (key : A → ℕ) (out : B → ℕ) (f : A → B) (xs : List A)
    → ((a : A) → out (f a) ≡ key a)
    → IsSortedBy key xs
    → IsSortedBy out (map f xs)
map-IsSortedBy key out f [] same h = tt
map-IsSortedBy {A} key out f (x ∷ xs) same h = (above xs h.0, map-IsSortedBy key out f xs same h.1)
  where
    above : (ys : List A) → All (λ y. key x ≤ key y) ys → All (λ y. out (f x) ≤ out y) (map f ys)
    above [] k = tt
    above (y ∷ ys) k = ground (arith, same x, same y, above ys k.1)

module _ (m : Matcher) (ctx : MessageContext) where
  -- A rule without conditions meets every message; else one condition has to hold in mode `any`, and
  -- all of them in every other mode.
  abbrev pub Meets : FilterRule → Type 0
  Meets rule =
      (rule.conditions ≡ [])
      ⊎ (rule.match_mode ≡ "any")
        × ((c : FilterCondition) × Memᴰ c rule.conditions × (eval_condition m ctx c ≡ true))
      ⊎ (rule.match_mode ≢ "any")
        × ((c : FilterCondition) → Memᴰ c rule.conditions → eval_condition m ctx c ≡ true)

  abbrev meets : FilterRule → Bool
  meets rule = rule.enabled && (is_empty rule.conditions || does_match m ctx rule)

  is_empty_iff : (cs : List FilterCondition) → (is_empty cs ≡ true) ↔ (cs ≡ [])
  is_empty_iff [] = (λ _. refl, λ _. refl)
  is_empty_iff (c ∷ cs) = (λ e. cc, λ e. cc)

  met_iff :
      (rule : FilterRule)
      → ((is_empty rule.conditions || does_match m ctx rule) ≡ true) ↔ Meets rule
  met_iff rule = (there, back)
    where
      none_iff : (is_empty rule.conditions ≡ true) ↔ (rule.conditions ≡ [])
      none_iff = is_empty_iff rule.conditions

      every :
          (all (eval_condition m ctx) rule.conditions ≡ true)
          ↔ ((c : FilterCondition) → Memᴰ c rule.conditions → eval_condition m ctx c ≡ true)
      every = all_iff (eval_condition m ctx) rule.conditions

      there : (is_empty rule.conditions || does_match m ctx rule) ≡ true → Meets rule
      there h = elim (Bool-cases (is_empty rule.conditions)) [
        | inl e ↦ inl (none_iff.0 e)
        | inr e ↦ elim (Bool-cases (str_eq rule.match_mode "any")) [
          | inl is_any ↦ inr (
              inl (
                (eq_iff rule.match_mode "any").0 is_any,
                any-mem (eval_condition m ctx) rule.conditions (ground arith),
              ))
          | inr not_any ↦
              inr (
                inr
                  ((λ same. ground (arith, eq_iff rule.match_mode "any")), every.0 (ground arith)))
        ]
      ]

      back : Meets rule → (is_empty rule.conditions || does_match m ctx rule) ≡ true
      back (inl e) = rw (none_iff.1 e) refl
      back (inr (inl (e, (c, n, h)))) =
          let one = any-true (eval_condition m ctx) rule.conditions c n h in
          ground (arith, eq_iff rule.match_mode "any")
      back (inr (inr (e, h))) =
          let those = every.1 h in ground (arith, eq_iff rule.match_mode "any")

  matching-keep : (rules : List FilterRule) → matching m ctx rules ≡ keep meets rules
  unfolding matching
  matching-keep [] = refl
  matching-keep (rule ∷ rules) = ground (arith, matching-keep rules)

  meets_iff : (rule : FilterRule) → (meets rule ≡ true) ↔ ((rule.enabled ≡ true) × Meets rule)
  meets_iff rule = ground (arith, met_iff rule)

  list_filters-IsSortedBy : (rows : FilterTable) → IsSortedBy (λ r. r.priority) (list_filters rows)
  unfolding list_filters parse_rule
  list_filters-IsSortedBy rows =
      map-IsSortedBy (λ r. r.priority) (λ r. r.priority) parse_rule _ (λ _. refl)
        (sort_by-IsSortedBy (λ r. r.priority) (sort_by (λ r. r.created_at) rows))

  -- The rules that a message matches are exactly the listed rules that are enabled and that it meets,
  -- and they come in the order of their priorities, the lower number first.
  pub matching_rules_iff :
      (rows : FilterTable)
      → ((r : FilterRule)
          → Memᴰ r (matching_rules m ctx rows)
            ↔ (Memᴰ r (list_filters rows) × (r.enabled ≡ true) × Meets r))
        × IsSortedBy (λ r. r.priority) (matching_rules m ctx rows)
  matching_rules_iff rows = rw (matching-keep (list_filters rows)) (
    (λ r. (
      (λ k.
          let (n, h) = mem-of_keep meets r _ k in
          (n, ((meets_iff r).0 h).0, ((meets_iff r).0 h).1)),
      (λ h. mem-keep meets r _ h.0 ((meets_iff r).1 (h.1, h.2))),
    )),
    keep-IsSortedBy (λ r. r.priority) meets _ (list_filters-IsSortedBy rows),
  )

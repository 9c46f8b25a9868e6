-- ===== src/Sieve/Dropped.antt =====
-- backend/src/sieve/generator.rs: what the script loses of the rules, and where it asks for extensions.
use rav.Common.{
  ℕ, ◌^◌, ◌||◌, String, Option, str_eq, any, length, parse_uint, Option-cases, Bool-cases, inl, inr,
  filter_map, ◌≡◌, ◌≢◌, refl, ap, sym, ◌∙◌, Bool, true, false, ◌&&◌, none, some, List, [], ◌∷◌,
  ◌++◌, arith, Text, codes, Memᴰ, keep, mem-keep, append_assoc, if◌then◌else◌,
}
use rav.Filters.{FilterCondition, FilterRule}
use rav.Sieve.Rules.{
  is_sieve_capable, condition_to_sieve, string_to_sieve, field_to_header, on_header, size_test,
  rule_block, block_of, blocks, capable_rules, script_of, generate_sieve_script, extensions,
  require_line,
}
use rav.Sieve.Vacation.{VacationResponder, vacation_part, generate_script}

abbrev one_of : String → List String → Bool
one_of s names = any (λ name. str_eq s name) names

abbrev string_operators : List String
string_operators =
    "contains" ∷ "not_contains" ∷ "equals" ∷ "not_equals" ∷ "starts_with" ∷ "ends_with" ∷ []

abbrev is_some {ℓ} : {A : Type ℓ} → Option A → Bool
is_some none = false
is_some (some a) = true

-- A condition that Sieve has a test for: an attachment, a reply, a size that is over or under a number, or one of
-- four headers with one of six operators.
abbrev pub is_translatable : FilterCondition → Bool
is_translatable c =
    if one_of c.field ("has_attachment" ∷ "is_reply" ∷ [])
    then true
    else if str_eq c.field "size"
    then one_of c.op ("greater_than" ∷ "less_than" ∷ []) && is_some (parse_uint (2 ^ 64) c.value)
    else one_of c.field ("from" ∷ "to" ∷ "cc" ∷ "subject" ∷ []) && one_of c.op string_operators

abbrev pub without_untranslatable : FilterRule → FilterRule
without_untranslatable rule = record rule { conditions = keep is_translatable rule.conditions }

is_some-string_to_sieve :
    (is_address : Bool) (op : String) (header v : Text)
    → is_some (string_to_sieve is_address op header v) ≡ one_of op string_operators
unfolding string_to_sieve
is_some-string_to_sieve is_address op header v = ground arith

is_some-field_to_header :
    (field : String)
    → is_some (field_to_header field) ≡ one_of field ("from" ∷ "to" ∷ "cc" ∷ "subject" ∷ [])
unfolding field_to_header
is_some-field_to_header field = ground arith

is_some-on_header :
    (is_address : Bool) (op : String) (v : Text) (h : Option Text)
    → is_some (on_header is_address op v h) ≡ is_some h && one_of op string_operators
is_some-on_header is_address op v none = refl
is_some-on_header is_address op v (some header) = is_some-string_to_sieve is_address op header v

is_some-size_test :
    (op : String) (n : Option ℕ)
    → is_some (size_test op n) ≡ one_of op ("greater_than" ∷ "less_than" ∷ []) && is_some n
is_some-size_test op none = ground arith
is_some-size_test op (some n) = ground arith

is_some-condition_to_sieve :
    (c : FilterCondition) → is_some (condition_to_sieve c) ≡ is_translatable c
unfolding condition_to_sieve
is_some-condition_to_sieve c =
    let is_address = str_eq c.field "from" || str_eq c.field "to" || str_eq c.field "cc" in
    let size = is_some-size_test c.op (parse_uint (2 ^ 64) c.value) in
    let header =
      is_some-on_header is_address c.op c.value (field_to_header c.field)
      ∙ ap (λ b. b && one_of c.op string_operators) (is_some-field_to_header c.field) in
    elim (Bool-cases (str_eq c.field "has_attachment")) [
      | inl e ↦ rw e refl
      | inr e ↦ elim (Bool-cases (str_eq c.field "is_reply")) [
        | inl f ↦ rw (e, f) refl
        | inr f ↦ elim (Bool-cases (str_eq c.field "size")) [
          | inl g ↦ rw (e, f) (rw g size)
          | inr g ↦ rw (e, f) (rw g header)
        ]
      ]
    ]

filter_map-keep :
    (cs : List FilterCondition)
    → (filter_map condition_to_sieve (keep is_translatable cs) ≡ filter_map condition_to_sieve cs)
      × (length (filter_map condition_to_sieve cs) ≡ length (keep is_translatable cs))
filter_map-keep [] = (refl, refl)
filter_map-keep (c ∷ cs) =
    let ih = filter_map-keep cs in
    let known = is_some-condition_to_sieve c in
    elim (Option-cases (condition_to_sieve c)) [
      | inl e ↦
          let lost : is_translatable c ≡ false = sym known ∙ ap is_some e in
          rw lost (ground (arith, e, ih.0), ground (arith, e, ih.1))
      | inr (test, e) ↦
          let held : is_translatable c ≡ true = sym known ∙ ap is_some e in
          rw held (ground (arith, e, ih.0), ground (arith, e, ih.1))
    ]

pub rule_block-empty :
    (rule : FilterRule) → (without_untranslatable rule).conditions ≡ [] → rule_block rule ≡ []
unfolding block_of
rule_block-empty rule e =
    ap (block_of rule)
      (sym (filter_map-keep rule.conditions).0 ∙ ap (filter_map condition_to_sieve) e)

-- A rule whose block is in the script of a list of rules.
abbrev pub HasBlock : FilterRule → List FilterRule → Type 0
HasBlock r rules =
    Memᴰ r rules
    × ((r.enabled && is_sieve_capable r) ≡ true)
    × (filter_map condition_to_sieve r.conditions ≢ [])

block_of-if :
    (r : FilterRule) (tests : List Text)
    → tests ≢ []
    → (rest : Text) × (block_of r tests ≡ codes "if " ++ rest)
unfolding block_of
block_of-if r [] h = absurd (h refl)
block_of-if r (one ∷ tests) h = (_, refl)

regroup_tail : (x b r a : Text) → x ++ (b ++ r ++ a) ≡ x ++ b ++ r ++ a
regroup_tail x b r a = simp append_assoc refl

blocks-mem :
    (r : FilterRule) (rules : List FilterRule)
    → Memᴰ r rules
    → (before : Text) × (after : Text) × (blocks rules ≡ before ++ rule_block r ++ after)
blocks-mem r [] m = elim m [ ]
blocks-mem r (x ∷ rules) (Memᴰ.head e) =
    ([], blocks rules, ap (λ y. rule_block y ++ blocks rules) (sym e))
blocks-mem r (x ∷ rules) (Memᴰ.tail m) =
    let (before, after, e) = blocks-mem r rules m in
    (
      rule_block x ++ before,
      after,
      ap (λ t. rule_block x ++ t) e ∙ regroup_tail (rule_block x) before (rule_block r) after,
    )

script-blocks :
    (r : FilterRule) (rules : List FilterRule)
    → Memᴰ r rules
    → (r.enabled && is_sieve_capable r) ≡ true
    → (before : Text) × (after : Text) × (generate_sieve_script rules
        ≡ before ++ rule_block r ++ after)
unfolding generate_sieve_script
script-blocks r rules m h = from_capable (capable_rules rules) (mem-keep _ r rules m h)
  where
    from_capable :
        (capable : List FilterRule)
        → Memᴰ r capable
        → (before : Text) × (after : Text) × (script_of capable ≡ before ++ rule_block r ++ after)
    from_capable [] n = elim n [ ]
    from_capable (x ∷ capable) n =
        let (before, after, e) = blocks-mem r (x ∷ capable) n in
        let line = require_line (extensions (x ∷ capable)) in
        (
          line ++ before,
          after,
          ap (λ t. line ++ t) e ∙ regroup_tail line before (rule_block r) after,
        )

regroup :
    (b i r a c q t : Text)
    → (b ++ (i ++ r) ++ a) ++ (c ++ q ++ t) ≡ b ++ i ++ (r ++ a ++ c) ++ q ++ t
regroup b i r a c q t = simp append_assoc refl

vacation_part-require :
    (v : VacationResponder)
    → (comment : Text) × (after : Text) × (vacation_part v
        ≡ comment ++ codes "\nrequire [" ++ after)
unfolding vacation_part
vacation_part-require v = (codes "\n# --- out of office (generated by Altacee Mail) ---", _, refl)

-- If the responder is enabled and a rule of the list is enabled and capable and has a condition with a
-- test, the script has a line that starts with `require [` after an `if`.
pub require_after_if :
    (r : FilterRule) (rules : List FilterRule) (v : VacationResponder)
    → HasBlock r rules
    → v.enabled ≡ true
    → (before : Text) × (middle : Text) × (after : Text) × (generate_script rules (some v)
        ≡ before ++ codes "if " ++ middle ++ codes "\nrequire [" ++ after)
unfolding generate_script vacation_part
require_after_if r rules v h on =
    let (before, after, e) = script-blocks r rules h.0 h.1 in
    let (rest, f) = block_of-if r _ h.2 in
    let (comment, tail, g) = vacation_part-require v in
    (
      before,
      rest ++ after ++ comment,
      tail,
      ap
            (λ b.
              if b
              then generate_sieve_script rules ++ vacation_part v
              else generate_sieve_script rules)
            on
          ∙ rw (e, f, g)
              (regroup before (codes "if ") rest after comment (codes "\nrequire [") tail),
    )

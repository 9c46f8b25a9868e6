-- ===== src/Filters/Validate.antt =====
-- backend/src/db/filters.rs: `validate_actions`, `validate_action` and `legacy_action`.
use rav.Common.{
  ◌≡◌, ◌≢◌, ◌↔◌, ◌⊎◌, inl, inr, refl, String, Bool, true, false, not, ◌||◌, Option, none, List, [],
  ◌∷◌, arith, if◌then◌else◌, str_eq, eq_iff, All, Text, contains, starts_with, Result, ok, err,
  ◌>>=◌, unwrap_or,
}
use rav.Filters.{FilterAction}

-- The texts of the errors that the filter functions answer.
pub data FilterError : Type 0 where
  at_least_one_action : FilterError
  move_requires_folder : FilterError
  tag_requires_id : FilterError
  forward_requires_address : FilterError
  invalid_action_type : String → FilterError
  insert_failed : FilterError
  not_retrieved : FilterError

abbrev pub Checked : Type 0
Checked = Result {0, 0} Unit FilterError

abbrev is_empty : Text → Bool
is_empty [] = true
is_empty (_ ∷ _) = false

-- The `match` of `validate_action`, on the type and the value (none counts as the empty text).
unfoldable pub validate_value : String → Text → Checked
validate_value action_type value =
    if str_eq action_type "move"
    then if is_empty value then err move_requires_folder else ok tt
    else if str_eq action_type "tag"
    then if is_empty value then err tag_requires_id else ok tt
    else if str_eq action_type "forward"
    then if is_empty value || not (contains value (b'@' ∷ []))
      then err forward_requires_address
      else ok tt
    else if str_eq action_type "mark_read"
    then ok tt
    else if str_eq action_type "mark_starred"
    then ok tt
    else if str_eq action_type "delete"
    then ok tt
    else err (invalid_action_type action_type)

abbrev pub validate_action : FilterAction → Checked
validate_action a = validate_value a.action_type (unwrap_or a.action_value [])

-- The `for` loop of `validate_actions`.
unfoldable pub validate_each : List FilterAction → Checked
validate_each [] = ok tt
validate_each (action ∷ actions) = validate_action action >>= (λ _. validate_each actions)

unfoldable pub validate_actions : List FilterAction → Checked
validate_actions [] = err at_least_one_action
validate_actions (action ∷ actions) = validate_each (action ∷ actions)

unfoldable pub legacy_action : List FilterAction → String × Option Text
legacy_action [] = ("mark_read", none)
legacy_action (a ∷ _) = (a.action_type, a.action_value)

-- What an action type asks of its value.
abbrev IsWellFormed : String → Text → Type 0
IsWellFormed type value =
    ((type ≡ "move") ⊎ (type ≡ "tag")) × (value ≢ [])
    ⊎ (type ≡ "forward") × (contains value (b'@' ∷ []) ≡ true)
    ⊎ (type ≡ "mark_read")
    ⊎ (type ≡ "mark_starred")
    ⊎ (type ≡ "delete")

abbrev pub IsValid : FilterAction → Type 0
IsValid a = IsWellFormed a.action_type (unwrap_or a.action_value [])

IsWellFormed-of_ok :
    (type : String) (value : Text) → validate_value type value ≡ ok tt → IsWellFormed type value
unfolding validate_value contains starts_with
IsWellFormed-of_ok type [] h = ground (
  arith,
  eq_iff type "move",
  eq_iff type "tag",
  eq_iff type "forward",
  eq_iff type "mark_read",
  eq_iff type "mark_starred",
  eq_iff type "delete",
)
IsWellFormed-of_ok type (c ∷ value) h = ground (
  arith,
  eq_iff type "move",
  eq_iff type "tag",
  eq_iff type "forward",
  eq_iff type "mark_read",
  eq_iff type "mark_starred",
  eq_iff type "delete",
)

IsWellFormed-ok :
    (type : String) (value : Text) → IsWellFormed type value → validate_value type value ≡ ok tt
unfolding validate_value contains starts_with
IsWellFormed-ok type [] (inl (e, h)) = absurd (h refl)
IsWellFormed-ok type (c ∷ value) (inl (inl e, h)) = rw e refl
IsWellFormed-ok type (c ∷ value) (inl (inr e, h)) = rw e refl
IsWellFormed-ok type [] (inr (inl (e, h))) = cc
IsWellFormed-ok type (c ∷ value) (inr (inl (e, h))) = rw e (rw h refl)
IsWellFormed-ok type value (inr (inr (inl e))) = rw e refl
IsWellFormed-ok type value (inr (inr (inr (inl e)))) = rw e refl
IsWellFormed-ok type value (inr (inr (inr (inr e)))) = rw e refl

pub validate_action-IsValid : (a : FilterAction) → (validate_action a ≡ ok tt) ↔ IsValid a
validate_action-IsValid a = (IsWellFormed-of_ok _ _, IsWellFormed-ok _ _)

validate_each-IsValid :
    (actions : List FilterAction) → (validate_each actions ≡ ok tt) ↔ All IsValid actions
unfolding validate_each
validate_each-IsValid [] = (λ _. tt, λ _. refl)
validate_each-IsValid (a ∷ actions) =
    ground (arith, validate_action-IsValid a, validate_each-IsValid actions)

-- A list of actions is accepted exactly if it is not empty and each action is of a known type with the
-- value that the type asks for: a text that is not empty for a folder or a tag, one with an `@` for an
-- address.
pub validate_actions-IsValid :
    (actions : List FilterAction)
    → (validate_actions actions ≡ ok tt) ↔ ((actions ≢ []) × All IsValid actions)
unfolding validate_actions
validate_actions-IsValid [] = (λ e. cc, λ h. absurd (h.0 refl))
validate_actions-IsValid (a ∷ actions) =
    let each = validate_each-IsValid (a ∷ actions) in (λ h. ((λ e. cc), each.0 h), λ h. each.1 h.1)

-- ===== src/Assistant/Actions.antt =====
-- backend/src/assistant/actions.rs: the check of an action that the model proposes. `trim`,
-- `to_lowercase` and `is_whitespace` stand for the methods of `str` and `char`, which go by the tables of
-- Unicode; the id is drawn at random.
pub mod Exact
pub mod Safe
use rav.Common.{
  split_at, ℕ, ◌+◌, Bool, true, false, not, ◌&&◌, ◌||◌, Option, none, some, List, [], ◌∷◌, ◌++◌,
  ltb, leb, ◌==◌, if◌then◌else◌, length, any, Text, codes, text_eq, contains, decimal, Result, ok,
  err, ◌>>=◌, unwrap_or, ok_or,
}
use rav.Assistant.{ActionKind, ActionMessage, ActionProposal, FilterSpec}

pub record Strings : Type 0 where
  pub trim : Text → Text
  pub to_lowercase : Text → Text
  pub is_whitespace : ℕ → Bool

abbrev pub max_action_messages : ℕ
max_action_messages = 50

pub record ProposeActionArgs : Type 0 where
  pub kind : Text
  pub refs : List Text
  pub folder : Option Text
  pub from : Option Text

abbrev emails : ℕ → Text
emails n = if n == 1 then codes "1 email" else decimal n ++ codes " emails"

-- `folders.iter().find(p)`
unfoldable pub find_folder : (Text → Bool) → List Text → Option Text
find_folder p [] = none
find_folder p (f ∷ folders) = let later = find_folder p folders in if p f then some f else later

unfoldable pub existing_folder : List Text → Text → Result Text Text
existing_folder folders name =
    ok_or (find_folder (λ f. text_eq f name) folders)
      (codes "folder \"" ++ (name ++ codes "\" does not exist; use one of the user's folders"))

abbrev to_lower_code : ℕ → ℕ
to_lower_code c = if leb b'A' c && leb c b'Z' then c + 32 else c

-- `eq_ignore_ascii_case`
unfoldable pub eq_ignore_case : Text → Text → Bool
eq_ignore_case [] [] = true
eq_ignore_case [] (d ∷ t) = false
eq_ignore_case (c ∷ s) [] = false
eq_ignore_case (c ∷ s) (d ∷ t) = (to_lower_code c == to_lower_code d) && eq_ignore_case s t

abbrev two_sides : List Text → Bool
two_sides (l ∷ d ∷ []) = not (text_eq l []) && contains d (b'.' ∷ [])
two_sides [] = false
two_sides (l ∷ []) = false
two_sides (l ∷ d ∷ e ∷ parts) = false

unfoldable pub exact_address : Strings → Text → Result Text Text
exact_address lib raw =
    let a = lib.to_lowercase (lib.trim raw) in
    let wild = any (λ c. lib.is_whitespace c || (c == b'*') || (c == b'?') || (c == b'%')) a in
    if two_sides (split_at b'@' a) && not wild
    then ok a
    else err (codes "\"" ++ (raw ++ codes "\" is not one exact sender address"))

unfoldable pub kind_of : Text → Result ActionKind Text
kind_of kind =
    if text_eq kind (codes "move")
    then ok ActionKind.move
    else if text_eq kind (codes "archive")
    then ok ActionKind.archive
    else if text_eq kind (codes "mark_read")
    then ok ActionKind.mark_read
    else if text_eq kind (codes "create_filter")
    then ok ActionKind.create_filter
    else err (
        codes "\""
        ++ (kind ++ codes "\" is not an action; use move, archive, mark_read or create_filter"))

-- The folder, the filter and the summary of an action.
abbrev pub Shape : Type 0
Shape = Option Text × Option FilterSpec × Text

unfoldable pub shape_of :
    Strings → ActionKind → ProposeActionArgs → ℕ → List Text → Result Shape Text
shape_of lib ActionKind.move args n folders =
    existing_folder folders (unwrap_or args.folder []) >>= λ f.
    ok (some f, none, codes "Move " ++ (emails n ++ (codes " to " ++ f)))
shape_of lib ActionKind.archive args n folders =
    ok_or (find_folder (λ f. eq_ignore_case f (codes "archive")) folders)
      (codes "this mailbox has no Archive folder")
    >>= λ f. ok (some f, none, codes "Archive " ++ emails n)
shape_of lib ActionKind.mark_read args n folders =
    ok (none, none, codes "Mark " ++ (emails n ++ codes " as read"))
shape_of lib ActionKind.create_filter args n folders =
    exact_address lib (unwrap_or args.from []) >>= λ from.
    existing_folder folders (unwrap_or args.folder []) >>= λ f. ok (
      none,
      some (record { from = from; folder = f }),
      codes "File future mail from " ++ (from ++ (codes " into " ++ f)),
    )

abbrev pub is_create_filter : ActionKind → Bool
is_create_filter ActionKind.move = false
is_create_filter ActionKind.archive = false
is_create_filter ActionKind.mark_read = false
is_create_filter ActionKind.create_filter = true

abbrev pub proposal : Text → ActionKind → List ActionMessage → Shape → Result ActionProposal Text
proposal id kind messages (folder, filter, summary) = ok (record {
  id = id;
  kind = kind;
  summary = summary;
  messages = messages;
  folder = folder;
  filter = filter;
})

-- The checks after the kind is known.
unfoldable pub validate_kind :
    Strings
    → Text
    → ProposeActionArgs
    → List ActionMessage
    → List Text
    → ActionKind
    → Result ActionProposal Text
validate_kind lib id args messages folders kind =
    if ltb max_action_messages (length messages)
    then err (codes "at most 50 emails per action")
    else if not (is_create_filter kind) && (length messages == 0)
    then err (codes "name at least one email by its ref")
    else shape_of lib kind args (length messages) folders >>= proposal id kind messages

unfoldable pub validate_action :
    Strings → Text → ProposeActionArgs → List ActionMessage → List Text → Result ActionProposal Text
validate_action lib id args messages folders =
    kind_of args.kind >>= validate_kind lib id args messages folders

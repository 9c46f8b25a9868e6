-- ===== src/Assistant/Actions/Safe.antt =====
-- backend/src/assistant/actions.rs: what an action has that passes `validate_action`.
use rav.Common.{
  ℕ, ◌≤◌, ◌≡◌, refl, sym, ap, subst, inl, inr, Bool, true, false, not, Option, none, some, List, [],
  ◌∷◌, arith, ◌==◌, ◌⊎◌, ltb, ◌&&◌, length, Text, codes, text_eq, text_eq_iff, ok, bind-ok,
  ok_or-ok, ok-injective, Bool-cases, unwrap_or, Memᴰ,
}
use rav.Assistant.{ActionKind, ActionMessage, ActionProposal, FilterSpec}
use rav.Assistant.Actions.Exact.{
  in_small, eq_ignore_case-true, kind_name, kind_of-ok, IsOneAddress, exact_address-ok,
}
use rav.Assistant.Actions.{
  Strings, ProposeActionArgs, find_folder, existing_folder, eq_ignore_case, kind_of, shape_of,
  proposal, validate_kind, validate_action, is_create_filter, max_action_messages, Shape,
}

find_folder-mem :
    (p : Text → Bool) (folders : List Text) (f : Text)
    → find_folder p folders ≡ some f
    → Memᴰ f folders × (p f ≡ true)
unfolding find_folder
find_folder-mem p [] f h = cc
find_folder-mem p (g ∷ folders) f h = elim (Bool-cases (p g)) [
  | inl e ↦ let same : g ≡ f = cc (rw e at h) in (Memᴰ.head (sym same), rw (sym same) e)
  | inr e ↦ let (m, k) = find_folder-mem p folders f (rw e at h) in (Memᴰ.tail m, k)
]

existing_folder-mem :
    (folders : List Text) (name f : Text)
    → existing_folder folders name ≡ ok f
    → Memᴰ f folders × (f ≡ name)
unfolding existing_folder
existing_folder-mem folders name f h =
    let (m, k) = find_folder-mem (λ g. text_eq g name) folders f (ok_or-ok _ _ f h) in
    (m, (text_eq_iff f name).0 k)

-- What the kind of an action asks of its folder and filter.
abbrev pub IsFiled :
    Strings → ProposeActionArgs → List Text → ActionKind → Option Text → Option FilterSpec → Type 0
IsFiled lib args folders ActionKind.move folder filter =
    (filter ≡ none)
    × (folder ≡ some (unwrap_or args.folder []))
    × Memᴰ (unwrap_or args.folder []) folders
IsFiled lib args folders ActionKind.archive folder filter =
    (filter ≡ none)
    × (f : Text) × (folder ≡ some f)
    × Memᴰ f folders
    × (in_small f ≡ codes "archive")
IsFiled lib args folders ActionKind.mark_read folder filter = (folder ≡ none) × (filter ≡ none)
IsFiled lib args folders ActionKind.create_filter folder filter =
    (folder ≡ none)
    × (spec : FilterSpec) × (filter ≡ some spec)
    × (spec.folder ≡ unwrap_or args.folder [])
    × Memᴰ spec.folder folders
    × (spec.from ≡ lib.to_lowercase (lib.trim (unwrap_or args.from [])))
    × IsOneAddress lib spec.from

shape_of-IsFiled :
    (lib : Strings) (kind : ActionKind) (args : ProposeActionArgs) (n : ℕ) (folders : List Text)
    (shape : Shape)
    → shape_of lib kind args n folders ≡ ok shape
    → IsFiled lib args folders kind shape.0 shape.1
unfolding shape_of
shape_of-IsFiled lib ActionKind.move args n folders shape h =
    let (f, found, e) = bind-ok _ _ shape h in
    let (m, same) = existing_folder-mem folders _ f found in
    subst (λ s. IsFiled lib args folders ActionKind.move s.0 s.1) (ok-injective _ shape e)
      (refl, ap some same, subst (λ g. Memᴰ g folders) same m)
shape_of-IsFiled lib ActionKind.archive args n folders shape h =
    let (f, found, e) = bind-ok _ _ shape h in
    let (m, k) =
      find_folder-mem (λ g. eq_ignore_case g (codes "archive")) folders f (ok_or-ok _ _ f found) in
    subst (λ s. IsFiled lib args folders ActionKind.archive s.0 s.1) (ok-injective _ shape e)
      (refl, f, refl, m, eq_ignore_case-true f (codes "archive") k)
shape_of-IsFiled lib ActionKind.mark_read args n folders shape h =
    subst (λ s. IsFiled lib args folders ActionKind.mark_read s.0 s.1) (ok-injective _ shape h)
      (refl, refl)
shape_of-IsFiled lib ActionKind.create_filter args n folders shape h =
    let (from, exact, h') = bind-ok _ _ shape h in
    let (f, found, e) = bind-ok _ _ shape h' in
    let (m, same) = existing_folder-mem folders _ f found in
    subst (λ s. IsFiled lib args folders ActionKind.create_filter s.0 s.1) (ok-injective _ shape e)
      (
        refl,
        record { from = from; folder = f },
        refl,
        same,
        m,
        (exact_address-ok lib (unwrap_or args.from []) from exact).0,
        (exact_address-ok lib (unwrap_or args.from []) from exact).1,
      )

-- The message limit, and the messages that an action other than a filter needs.
abbrev pub IsSized : ActionKind → List ActionMessage → Type 0
IsSized kind messages =
    (length messages ≤ 50) × ((is_create_filter kind ≡ true) ⊎ (1 ≤ length messages))

sizes :
    (kind : ActionKind) (messages : List ActionMessage)
    → ltb max_action_messages (length messages) ≡ false
    → not (is_create_filter kind) && (length messages == 0) ≡ false
    → IsSized kind messages
sizes kind messages few sized = ground arith

-- An action that is offered to the user is of the kind that the model named, of the messages that were
-- resolved, at most 50 of them and one at least if it is no filter; a move goes to the folder that the
-- model named, which is one of the user's, an archiving to a folder of the user's whose name is `archive`
-- in small or capital letters, and a filter files into a folder of the user's the mail of the address that the
-- model named, trimmed and in small letters: one text before a single `@`, a domain with a dot after it, and in
-- it no white space and none of `*`, `?` and `%`.
pub validate_action-IsFiled :
    (lib : Strings) (id : Text) (args : ProposeActionArgs) (messages : List ActionMessage)
    (folders : List Text) (p : ActionProposal)
    → validate_action lib id args messages folders ≡ ok p
    → (args.kind ≡ kind_name p.kind)
      × (p.id ≡ id)
      × (p.messages ≡ messages)
      × IsSized p.kind p.messages
      × IsFiled lib args folders p.kind p.folder p.filter
unfolding validate_action validate_kind
validate_action-IsFiled lib id args messages folders p h =
    let (kind, named, h') =
      bind-ok (kind_of args.kind) (validate_kind lib id args messages folders) p h in
    elim (Bool-cases (ltb max_action_messages (length messages))) [
      | inl many ↦ ground (arith, rw many at h')
      | inr few ↦ elim (Bool-cases (not (is_create_filter kind) && (length messages == 0))) [
        | inl empty ↦ ground (arith, rw (few, empty) at h')
        | inr sized ↦
            let (shape, shaped, e) =
              bind-ok (shape_of lib kind args (length messages) folders) (proposal id kind messages)
                p (rw (few, sized) at h') in
            subst
              (λ q.
                (args.kind ≡ kind_name q.kind)
                × (q.id ≡ id)
                × (q.messages ≡ messages)
                × IsSized q.kind q.messages
                × IsFiled lib args folders q.kind q.folder q.filter)
              (ok-injective _ p e)
              (
                kind_of-ok args.kind kind named,
                refl,
                refl,
                sizes kind messages few sized,
                shape_of-IsFiled lib kind args (length messages) folders shape shaped,
              )
      ]
    ]

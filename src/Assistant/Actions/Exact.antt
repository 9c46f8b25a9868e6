-- ===== src/Assistant/Actions/Exact.antt =====
-- backend/src/assistant/actions.rs: what `exact_address` and the kind of an action accept.
use rav.Common.{
  map, leb, ◌+◌, ℕ, ◌≡◌, ◌≢◌, refl, ap, sym, subst, ◌∙◌, inl, inr, true, false, ◌&&◌, ◌||◌, List,
  [], ◌∷◌, ◌++◌, arith, ◌==◌, ==_iff, if◌then◌else◌, Bool-cases, any, All, Text, codes, text_eq,
  text_eq_iff, contains, starts_with, split_at, Result, ok,
}
use rav.Assistant.{ActionKind}
use rav.Assistant.Actions.{Strings, exact_address, eq_ignore_case, kind_of, two_sides}

-- The word that the model writes for a kind.
abbrev pub kind_name : ActionKind → Text
kind_name ActionKind.move = codes "move"
kind_name ActionKind.archive = codes "archive"
kind_name ActionKind.mark_read = codes "mark_read"
kind_name ActionKind.create_filter = codes "create_filter"

pub kind_of-ok : (word : Text) (kind : ActionKind) → kind_of word ≡ ok kind → word ≡ kind_name kind
unfolding kind_of
kind_of-ok word kind h = elim (Bool-cases (text_eq word (codes "move"))) [
  | inl e ↦ named (codes "move") ActionKind.move e refl (rw e at h)
  | inr e ↦ elim (Bool-cases (text_eq word (codes "archive"))) [
    | inl f ↦ named (codes "archive") ActionKind.archive f refl (rw (e, f) at h)
    | inr f ↦ elim (Bool-cases (text_eq word (codes "mark_read"))) [
      | inl g ↦ named (codes "mark_read") ActionKind.mark_read g refl (rw (e, f, g) at h)
      | inr g ↦ elim (Bool-cases (text_eq word (codes "create_filter"))) [
        | inl k ↦
            named (codes "create_filter") ActionKind.create_filter k refl (rw (e, f, g, k) at h)
        | inr k ↦ cc (rw (e, f, g, k) at h)
      ]
    ]
  ]
]
  where
    named :
        (name : Text) (found : ActionKind)
        → text_eq word name ≡ true
        → name ≡ kind_name found
        → ◌≡◌ {A = Result ActionKind Text} (ok found) (ok kind)
        → word ≡ kind_name kind
    named name found same is_name e =
        let known : found ≡ kind = cc e in
        (text_eq_iff word name).0 same ∙ is_name ∙ ap kind_name known

-- `parts` are the pieces of a text between the characters `c`.
abbrev IsSplit : ℕ → List Text → Text → Type 0
IsSplit c [] a = true ≡ false
IsSplit c (part ∷ []) a = (a ≡ part) × (any (λ x. x == c) part ≡ false)
IsSplit c (part ∷ next ∷ parts) a =
    (rest : Text) × (a ≡ part ++ c ∷ rest)
    × (any (λ x. x == c) part ≡ false)
    × IsSplit c (next ∷ parts) rest

split_step : ℕ → ℕ → List Text → List Text
split_step c x r = elim r [
  | [] ↦ []
  | part ∷ parts ↦ if x == c then [] ∷ part ∷ parts else (x ∷ part) ∷ parts
]

split_step-IsSplit :
    (c x : ℕ) (s : Text) (r : List Text) → IsSplit c r s → IsSplit c (split_step c x r) (x ∷ s)
unfolding split_step
split_step-IsSplit c x s [] h = h
split_step-IsSplit c x s (part ∷ []) h = elim (Bool-cases (x == c)) [
  | inl e ↦ rw e (s, ap (λ y. y ∷ s) ((==_iff x c).0 e), refl, h)
  | inr e ↦ rw e (ap (λ t. x ∷ t) h.0, rw (e, h.1) refl)
]
split_step-IsSplit c x s (part ∷ next ∷ parts) h = elim (Bool-cases (x == c)) [
  | inl e ↦ rw e (s, ap (λ y. y ∷ s) ((==_iff x c).0 e), refl, h)
  | inr e ↦ rw e (h.0, ap (λ t. x ∷ t) h.1, rw (e, h.2) refl, h.3)
]

split_at-IsSplit : (c : ℕ) (s : Text) → IsSplit c (split_at c s) s
unfolding split_at split_step
split_at-IsSplit c [] = (refl, refl)
split_at-IsSplit c (x ∷ s) = split_step-IsSplit c x s (split_at c s) (split_at-IsSplit c s)

contains-any : (c : ℕ) (s : Text) → contains s (c ∷ []) ≡ true → any (λ x. x == c) s ≡ true
unfolding contains starts_with
contains-any c [] h = cc
contains-any c (x ∷ s) h = elim (Bool-cases (x == c)) [
  | inl e ↦ rw e refl
  | inr e ↦ ground (arith, h, e, contains-any c s)
]

-- No white space and no wildcard.
abbrev pub IsPlain : Strings → ℕ → Type 0
IsPlain lib c = (lib.is_whitespace c ≡ false) × (c ≢ b'*') × (c ≢ b'?') × (c ≢ b'%')

All-IsPlain :
    (lib : Strings) (a : Text)
    → any (λ c. lib.is_whitespace c || (c == b'*') || (c == b'?') || (c == b'%')) a ≡ false
    → All (IsPlain lib) a
All-IsPlain lib [] h = tt
All-IsPlain lib (c ∷ a) h = (
  (ground (arith, h), ground (arith, h), ground (arith, h), ground (arith, h)),
  All-IsPlain lib a (ground (arith, h)),
)

-- One address: a text before a single `@`, a domain with a dot after it, and nothing that matches more.
abbrev pub IsOneAddress : Strings → Text → Type 0
IsOneAddress lib a =
    ((local : Text) × (domain : Text) × (a ≡ local ++ b'@' ∷ domain)
      × (local ≢ [])
      × (any (λ c. c == b'@') local ≡ false)
      × (any (λ c. c == b'@') domain ≡ false)
      × (any (λ c. c == b'.') domain ≡ true))
    × All (IsPlain lib) a

two_sides-split :
    (a : Text) (r : List Text)
    → IsSplit b'@' r a
    → two_sides r ≡ true
    → (local : Text) × (domain : Text) × (a ≡ local ++ b'@' ∷ domain)
      × (local ≢ [])
      × (any (λ c. c == b'@') local ≡ false)
      × (any (λ c. c == b'@') domain ≡ false)
      × (any (λ c. c == b'.') domain ≡ true)
two_sides-split a [] h e = cc
two_sides-split a (l ∷ []) h e = cc
two_sides-split a (l ∷ d ∷ f ∷ parts) h e = cc
two_sides-split a (l ∷ d ∷ []) (rest, is_a, no_l, (same, no_d)) e = (
  l,
  d,
  is_a ∙ ap (λ t. l ++ b'@' ∷ t) same,
  λ empty. ground (arith, e, text_eq_iff l [], empty),
  no_l,
  no_d,
  contains-any b'.' d (ground (arith, e)),
)

pub exact_address-ok :
    (lib : Strings) (raw a : Text)
    → exact_address lib raw ≡ ok a
    → (a ≡ lib.to_lowercase (lib.trim raw)) × IsOneAddress lib a
unfolding exact_address
exact_address-ok lib raw a h =
    let b = lib.to_lowercase (lib.trim raw) in
    let wild = any (λ c. lib.is_whitespace c || (c == b'*') || (c == b'?') || (c == b'%')) b in
    elim (Bool-cases (two_sides (split_at b'@' b))) [
      | inr e ↦ cc (rw e at h)
      | inl e ↦ elim (Bool-cases wild) [
        | inl w ↦ cc (rw (e, w) at h)
        | inr w ↦
            let same : b ≡ a = cc (rw (e, w) at h) in
            (
              sym same,
              subst (IsOneAddress lib) same (
                two_sides-split b (split_at b'@' b) (split_at-IsSplit b'@' b) e,
                All-IsPlain lib b w,
              ),
            )
      ]
    ]

-- A text in small letters, where the capital ones are `A` to `Z`.
abbrev pub in_small : Text → Text
in_small = map (λ c. if leb b'A' c && leb c b'Z' then c + 32 else c)

pub eq_ignore_case-true : (s t : Text) → eq_ignore_case s t ≡ true → in_small s ≡ in_small t
unfolding eq_ignore_case
eq_ignore_case-true [] [] h = refl
eq_ignore_case-true [] (d ∷ t) h = cc
eq_ignore_case-true (c ∷ s) [] h = cc
eq_ignore_case-true (c ∷ s) (d ∷ t) h =
    let same : in_small (c ∷ []) ≡ in_small (d ∷ []) = ground (arith, h) in
    let rest = eq_ignore_case-true s t (ground (arith, h)) in
    ap (λ x. x ++ in_small s) same ∙ ap (λ x. in_small (d ∷ []) ++ x) rest

-- ===== src/Sieve/Literal.antt =====
-- backend/src/sieve/generator.rs: `stuff_dots`, against the reading of a `text:` literal that RFC 5228
-- section 2.4.2 gives: it ends at a line that is one dot, and a line that starts with a dot loses it.
use rav.Common.{
  join, ℕ, ◌≡◌, ◌≢◌, refl, ap, ◌∙◌, inl, inr, Bool, false, Option, none, some, List, [], ◌∷◌, ◌++◌,
  arith, ◌==◌, ==_iff, if◌then◌else◌, Bool-cases, Text, All, map, append_assoc,
}
use rav.Sieve.Vacation.{lines, stuffed, stuff_dots, on_first, starts_line_feed}

unfoldable pub split : Text → List Text
split [] = [] ∷ []
split (c ∷ s) = let others = split s in if c == b'\n' then [] ∷ others else on_first c others

abbrev is_dot : Text → Bool
is_dot [] = false
is_dot (c ∷ []) = c == b'.'
is_dot (c ∷ d ∷ s) = false

abbrev unstuffed : Text → Text
unstuffed [] = []
unstuffed (c ∷ s) = if c == b'.' then s else c ∷ s

abbrev push_line : Text → Option (List Text × List Text) → Option (List Text × List Text)
push_line line none = none
push_line line (some (value, rest)) = some (line ∷ value, rest)

-- Reads a literal from after `text:`: its lines, and the lines after it.
unfoldable pub read_literal : List Text → Option (List Text × List Text)
read_literal [] = none
read_literal (line ∷ others) =
    let after = read_literal others in
    if is_dot line then some ([], others) else push_line (unstuffed line) after

abbrev NoFeed : Text → Type 0
NoFeed = All (λ c. c ≢ b'\n')

on_first-NoFeed : (c : ℕ) (ls : List Text) → c ≢ b'\n' → All NoFeed ls → All NoFeed (on_first c ls)
on_first-NoFeed c [] h a = ((h, tt), tt)
on_first-NoFeed c (l ∷ ls) h a = ((h, a.0), a.1)

lines-NoFeed : (s : Text) → All NoFeed (lines s)
unfolding lines
lines-NoFeed [] = tt
lines-NoFeed (c ∷ s) =
    let rest = lines-NoFeed s in
    elim (Bool-cases (c == b'\n')) [
      | inl e ↦ rw e (tt, rest)
      | inr e ↦
          let plain = on_first-NoFeed c (lines s) (λ f. ground (arith, ==_iff c b'\n')) rest in
          elim (Bool-cases (c == b'\r')) [
            | inl r ↦ elim (Bool-cases (starts_line_feed s)) [
              | inl n ↦ rw (e, r, n) rest
              | inr n ↦ rw (e, r, n) plain
            ]
            | inr r ↦ rw (e, r) plain
          ]
    ]

split-line : (l t : Text) → NoFeed l → split (l ++ b'\n' ∷ t) ≡ l ∷ split t
unfolding split
split-line [] t h = refl
split-line (c ∷ l) t h = ground (arith, split-line l t h.1, ==_iff c b'\n')

stuffed-NoFeed : (l : Text) → NoFeed l → NoFeed (stuffed l)
stuffed-NoFeed [] h = tt
stuffed-NoFeed (c ∷ l) h = elim (Bool-cases (c == b'.')) [
  | inl e ↦ rw e ((λ f. ground arith), h)
  | inr e ↦ rw e h
]

read_stuffed :
    (l : Text) (ls : List Text) → read_literal (stuffed l ∷ ls) ≡ push_line l (read_literal ls)
unfolding read_literal
read_stuffed [] ls = refl
read_stuffed (c ∷ []) ls = elim (Bool-cases (c == b'.')) [
  | inl e ↦ rw e refl
  | inr e ↦ rw e (rw e refl)
]
read_stuffed (c ∷ d ∷ l) ls = elim (Bool-cases (c == b'.')) [
  | inl e ↦ rw e refl
  | inr e ↦ rw e (rw e refl)
]

-- The end of the literal, as the script writes it.
abbrev pub ended : Text → Text
ended rest = b'\n' ∷ b'.' ∷ b'\n' ∷ rest

after_line : (s t e : Text) → (s ++ b'\n' ∷ [] ++ t) ++ e ≡ s ++ b'\n' ∷ (t ++ e)
after_line s t e = simp append_assoc refl

ended-read :
    (l rest : Text)
    → push_line l (read_literal (split (b'.' ∷ b'\n' ∷ rest))) ≡ some (l ∷ [], split rest)
unfolding split read_literal
ended-read l rest = refl

read_joined :
    (l : Text) (ls : List Text) (rest : Text)
    → All NoFeed (l ∷ ls)
    → read_literal (split (join (b'\n' ∷ []) (map stuffed (l ∷ ls)) ++ ended rest))
      ≡ some (l ∷ ls, split rest)
unfolding join
read_joined l [] rest h =
    ap read_literal (split-line (stuffed l) _ (stuffed-NoFeed l h.0))
    ∙ read_stuffed l _
    ∙ ended-read l rest
read_joined l (k ∷ ls) rest h =
    ap (λ t. read_literal (split t)) (after_line (stuffed l) _ (ended rest))
    ∙ ap read_literal (split-line (stuffed l) _ (stuffed-NoFeed l h.0))
    ∙ read_stuffed l _
    ∙ ap (push_line l) (read_joined k ls rest h.1)

empty_read :
    (rest : Text)
    → read_literal (split (join (b'\n' ∷ []) [] ++ ended rest)) ≡ some ([] ∷ [], split rest)
unfolding join split read_literal
empty_read rest = refl

-- A text without a line has one empty line in the script.
abbrev pub at_least_one : List Text → List Text
at_least_one [] = [] ∷ []
at_least_one (l ∷ ls) = l ∷ ls

-- A mail server that reads the literal of a body reads the body's own lines, whatever they are, and goes
-- on after the dot that the script wrote: no line of the body ends the literal.
pub read_literal-stuff_dots :
    (body rest : Text)
    → read_literal (split (stuff_dots body ++ ended rest))
      ≡ some (at_least_one (lines body), split rest)
unfolding stuff_dots
read_literal-stuff_dots body rest = by_lines (lines body) (lines-NoFeed body)
  where
    by_lines :
        (ls : List Text)
        → All NoFeed ls
        → read_literal (split (join (b'\n' ∷ []) (map stuffed ls) ++ ended rest))
          ≡ some (at_least_one ls, split rest)
    by_lines [] h = empty_read rest
    by_lines (l ∷ ls) h = read_joined l ls rest h

-- ===== src/Assistant/Stream/Chunking.antt =====
-- backend/src/assistant/model.rs: what is read of a body does not depend on how the network cuts it.
use rav.Common.{
  ℕ, true, ◌≡◌, refl, sym, ap, ◌∙◌, inl, inr, List, [], ◌∷◌, ◌++◌, append_assoc, append-nil, ◌==◌,
  Bool-cases, Text, ok, err,
}
use rav.Assistant.{ModelReply}
use rav.Assistant.Stream.{
  Reader, Streamed, and_then, take_lines, add_byte, push_lines, read_body, BodyEnd, concat,
  push_line, trim_line_end,
}

-- The lines of more bytes come after the lines of the bytes before.
abbrev joined : List Text → List Text × Text → List Text × Text
joined lines (more, rest) = (lines ++ more, rest)

add_byte-break :
    (c : ℕ) (p : List Text × Text) → (c == b'\n') ≡ true → add_byte c p ≡ ((c ∷ []) ∷ p.0, p.1)
add_byte-break c ([], rest) h = rw h refl
add_byte-break c (l ∷ lines, rest) h = rw h refl

add_byte-joined :
    (c : ℕ) (lines : List Text) (rest t : Text)
    → add_byte c (joined lines (take_lines (rest ++ t)))
      ≡ joined (add_byte c (lines, rest)).0 (take_lines ((add_byte c (lines, rest)).1 ++ t))
unfolding take_lines
add_byte-joined c [] rest t = elim (Bool-cases (c == b'\n')) [
  | inl e ↦ add_byte-break c (take_lines (rest ++ t)) e ∙ rw e refl
  | inr e ↦ rw e refl
]
add_byte-joined c (l ∷ lines) rest t = elim (Bool-cases (c == b'\n')) [
  | inl e ↦ rw e refl
  | inr e ↦ rw e refl
]

take_lines-append :
    (s t : Text)
    → take_lines (s ++ t) ≡ joined (take_lines s).0 (take_lines ((take_lines s).1 ++ t))
unfolding take_lines
take_lines-append [] t = refl
take_lines-append (c ∷ s) t =
    ap (add_byte c) (take_lines-append s t) ∙ add_byte-joined c (take_lines s).0 (take_lines s).1 t

and_then-texts :
    {B C : Type 0} (texts : List Text) (m : Streamed B) (g : B → Streamed C)
    → and_then {A = B} (texts ++ m.0, m.1) g ≡ (texts ++ (and_then m g).0, (and_then m g).1)
and_then-texts texts (more, err e) g = refl
and_then-texts texts (more, ok b) g = ap (λ x. (x, (g b).1)) (append_assoc texts more (g b).0)

and_then_ext :
    {A B : Type 0} (m : Streamed A) (f g : A → Streamed B)
    → ((a : A) → f a ≡ g a)
    → and_then m f ≡ and_then m g
and_then_ext (texts, err e) f g h = refl
and_then_ext (texts, ok a) f g h = ap (λ r. (texts ++ r.0, r.1)) (h a)

and_then_assoc :
    {A B C : Type 0} (m : Streamed A) (f : A → Streamed B) (g : B → Streamed C)
    → and_then (and_then m f) g ≡ and_then m (λ a. and_then (f a) g)
and_then_assoc (texts, err e) f g = refl
and_then_assoc (texts, ok a) f g = and_then-texts texts (f a) g

module _ (reader : Reader) where
  push_lines-append :
      (xs ys : List Text) (reply : ModelReply)
      → push_lines reader (xs ++ ys) reply
        ≡ and_then (push_lines reader xs reply) (push_lines reader ys)
  unfolding push_lines
  push_lines-append [] ys reply = refl
  push_lines-append (x ∷ xs) ys reply =
      and_then_ext (push_line reader (trim_line_end (reader.decode x)) reply)
        (push_lines reader (xs ++ ys))
        (λ r. and_then (push_lines reader xs r) (push_lines reader ys)) (push_lines-append xs ys)
      ∙ sym (
          and_then_assoc (push_line reader (trim_line_end (reader.decode x)) reply)
            (push_lines reader xs) (push_lines reader ys))

  read_body-merge :
      (a b : Text) (chunks : List Text) (end : BodyEnd) (pending : Text) (reply : ModelReply)
      → read_body reader (a ∷ b ∷ chunks) end pending reply
        ≡ read_body reader ((a ++ b) ∷ chunks) end pending reply
  unfolding read_body
  read_body-merge a b chunks end pending reply =
      let one = take_lines (pending ++ a) in
      let two = take_lines (one.1 ++ b) in
      let whole : List Text × Text → Streamed ModelReply =
        λ p. and_then (push_lines reader p.0 reply) (read_body reader chunks end p.1) in
      sym (
        ap whole
          (ap take_lines (sym (append_assoc pending a b)) ∙ take_lines-append (pending ++ a) b)
        ∙ ap (λ m. and_then m (read_body reader chunks end two.1))
            (push_lines-append one.0 two.0 reply)
        ∙ and_then_assoc (push_lines reader one.0 reply) (push_lines reader two.0)
            (read_body reader chunks end two.1))

  -- However the network cuts the bytes of a body into chunks, the text that is streamed and the reply or
  -- the error are those of the whole bytes in one chunk.
  pub read_body-concat :
      (a : Text) (chunks : List Text) (end : BodyEnd) (pending : Text) (reply : ModelReply)
      → read_body reader (a ∷ chunks) end pending reply
        ≡ read_body reader (concat (a ∷ chunks) ∷ []) end pending reply
  read_body-concat a [] end pending reply =
      ap (λ s. read_body reader (s ∷ []) end pending reply) (sym (append-nil a))
  read_body-concat a (b ∷ chunks) end pending reply =
      read_body-merge a b chunks end pending reply
      ∙ read_body-concat (a ++ b) chunks end pending reply
      ∙ ap (λ s. read_body reader (s ∷ []) end pending reply) (append_assoc a b (concat chunks))

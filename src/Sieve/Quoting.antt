-- ===== src/Sieve/Quoting.antt =====
-- backend/src/sieve/generator.rs: `escape_sieve` and `escape_sieve_glob`, against the reading of a
-- quoted string that RFC 5228 section 2.4.2 gives: a backslash stands for the character after it.
use rav.Common.{
  replace, ℕ, ◌≡◌, refl, ap, sym, inl, inr, Bool, true, false, Option, none, some, [], ◌∷◌, ◌++◌,
  arith, ◌==◌, ==_iff, if◌then◌else◌, Bool-cases, Text,
}

unfoldable pub escape_sieve : Text → Text
escape_sieve s = replace b'"' (b'\\' ∷ b'"' ∷ []) (replace b'\\' (b'\\' ∷ b'\\' ∷ []) s)

unfoldable pub escape_sieve_glob : Text → Text
escape_sieve_glob s =
    replace b'?' (b'\\' ∷ b'?' ∷ []) (replace b'*' (b'\\' ∷ b'*' ∷ []) (escape_sieve s))

abbrev pub push : ℕ → Option (Text × Text) → Option (Text × Text)
push c none = none
push c (some (value, rest)) = some (c ∷ value, rest)

-- Reads a quoted string from after its opening quote: its value, and what follows the closing quote.
unfoldable pub read_from : Bool → Text → Option (Text × Text)
read_from escaped [] = none
read_from true (c ∷ s) = push c (read_from false s)
read_from false (c ∷ s) =
    let plain = read_from false s in
    let next = read_from true s in
    if c == b'"' then some ([], s) else if c == b'\\' then next else push c plain

abbrev pub read_quoted : Text → Option (Text × Text)
read_quoted = read_from false

-- `escape_sieve`, one character at a time.
escape_sieve-cons :
    (c : ℕ) (s : Text)
    → escape_sieve (c ∷ s) ≡ (
        if c == b'"'
        then b'\\' ∷ b'"' ∷ escape_sieve s
        else if c == b'\\'
        then b'\\' ∷ b'\\' ∷ escape_sieve s
        else c ∷ escape_sieve s)
unfolding escape_sieve replace
escape_sieve-cons c s = ground (arith, ==_iff c b'"', ==_iff c b'\\')

-- A value that is written escaped between quotes is read back as it is, whatever characters it has, and
-- the string ends at the quote that was written after it.
pub read_quoted-escape_sieve :
    (value rest : Text) → read_quoted (escape_sieve value ++ b'"' ∷ rest) ≡ some (value, rest)
unfolding read_from escape_sieve replace
read_quoted-escape_sieve [] rest = refl
read_quoted-escape_sieve (c ∷ value) rest =
    let ih = read_quoted-escape_sieve value rest in
    rw (escape_sieve-cons c value) (elim (Bool-cases (c == b'"')) [
      | inl e ↦ rw (e, ih) (ap (λ x. some (x ∷ value, rest)) (sym ((==_iff c b'"').0 e)))
      | inr e ↦ elim (Bool-cases (c == b'\\')) [
        | inl b ↦ rw (e, b, ih) (ap (λ x. some (x ∷ value, rest)) (sym ((==_iff c b'\\').0 b)))
        | inr b ↦ rw (e, b) (rw (e, b, ih) refl)
      ]
    ])

escape_sieve_glob-cons :
    (c : ℕ) (s : Text)
    → escape_sieve_glob (c ∷ s) ≡ (
        if c == b'"'
        then b'\\' ∷ b'"' ∷ escape_sieve_glob s
        else if c == b'\\'
        then b'\\' ∷ b'\\' ∷ escape_sieve_glob s
        else if c == b'*'
        then b'\\' ∷ b'*' ∷ escape_sieve_glob s
        else if c == b'?'
        then b'\\' ∷ b'?' ∷ escape_sieve_glob s
        else c ∷ escape_sieve_glob s)
unfolding escape_sieve_glob escape_sieve replace
escape_sieve_glob-cons c s =
    ground (arith, ==_iff c b'"', ==_iff c b'\\', ==_iff c b'*', ==_iff c b'?')

-- What a server reads of a value written by `escape_sieve_glob` is the value itself: the backslashes
-- before its `*` and `?` are taken off with the quoting, and none is left for the pattern.
pub read_quoted-escape_sieve_glob :
    (value after rest : Text) (pattern : Text)
    → read_quoted after ≡ some (pattern, rest)
    → read_quoted (escape_sieve_glob value ++ after) ≡ some (value ++ pattern, rest)
unfolding read_from escape_sieve_glob escape_sieve replace
read_quoted-escape_sieve_glob [] after rest pattern h = h
read_quoted-escape_sieve_glob (c ∷ value) after rest pattern h =
    let ih = read_quoted-escape_sieve_glob value after rest pattern h in
    let as_read : (d : ℕ)
        → d ≡ c
        → push d (some (value ++ pattern, rest)) ≡ some (c ∷ value ++ pattern, rest) =
      λ d e. ap (λ x. some (x ∷ value ++ pattern, rest)) e in
    rw (escape_sieve_glob-cons c value) (elim (Bool-cases (c == b'"')) [
      | inl e ↦ rw (e, ih) (as_read _ (sym ((==_iff c b'"').0 e)))
      | inr e ↦ elim (Bool-cases (c == b'\\')) [
        | inl b ↦ rw (e, b, ih) (as_read _ (sym ((==_iff c b'\\').0 b)))
        | inr b ↦ elim (Bool-cases (c == b'*')) [
          | inl s ↦ rw (e, b, s, ih) (as_read _ (sym ((==_iff c b'*').0 s)))
          | inr s ↦ elim (Bool-cases (c == b'?')) [
            | inl q ↦ rw (e, b, s, q, ih) (as_read _ (sym ((==_iff c b'?').0 q)))
            | inr q ↦ rw (e, b, s, q) (rw (e, b, ih) refl)
          ]
        ]
      ]
    ])

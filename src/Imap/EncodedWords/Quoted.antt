-- ===== src/Imap/EncodedWords/Quoted.antt =====
-- backend/src/imap/parse.rs: what the Q encoding of RFC 2047 section 4.2 writes is read back.
use rav.Common.{
  ℕ, suc, ◌/◌, ◌%◌, ◌<◌, ◌≡◌, refl, sym, ap, ◌∙◌, inl, inr, Bool, true, false, ◌||◌, ◌&&◌, some, [],
  ◌∷◌, ◌++◌, arith, leb, ◌==◌, ==_iff, if◌then◌else◌, length, Bool-cases, All, Text, codes,
  starts_with, contains, text_eq, append-nil,
}
use rav.Links.{hex_digit}
use rav.Links.Hex.{hex_byte-digits}
use rav.Imap.EncodedWords.{
  Decoders, Wait, cut, before_too, quoted_from, decode_words, decode_rfc2047, decode_charset,
}

-- Letters and digits, which stand for themselves.
abbrev is_alphanumeric : ℕ → Bool
is_alphanumeric b =
    (leb b'0' b && leb b b'9') || (leb b'A' b && leb b b'Z') || (leb b'a' b && leb b b'z')

-- The Q encoding: a space is an underscore, another byte that is no letter or digit an escape.
unfoldable pub q_encode : Text → Text
q_encode [] = []
q_encode (b ∷ bytes) =
    let rest = q_encode bytes in
    if b == b' '
    then b'_' ∷ rest
    else if is_alphanumeric b
    then b ∷ rest
    else b'=' ∷ hex_digit (b / 16) ∷ hex_digit (b % 16) ∷ rest

alphanumeric_plain :
    (b : ℕ)
    → is_alphanumeric b ≡ true
    → ((b == b'_') ≡ false) × ((b == b'=') ≡ false) × ((b == b'?') ≡ false)
alphanumeric_plain b h = (ground (arith, h), ground (arith, h), ground (arith, h))

quoted_from-q_encode :
    (bytes : Text) → All (λ b. b < 256) bytes → quoted_from Wait.plain (q_encode bytes) ≡ some bytes
unfolding quoted_from q_encode
quoted_from-q_encode [] h = refl
quoted_from-q_encode (b ∷ bytes) h =
    let ih = quoted_from-q_encode bytes h.1 in
    elim (Bool-cases (b == b' ')) [
      | inl space ↦ rw (space, ih) (ap (λ x. some (x ∷ bytes)) (sym ((==_iff b b' ').0 space)))
      | inr other ↦ elim (Bool-cases (is_alphanumeric b)) [
        | inl same ↦
            let (no_space, no_escape, no_marker) = alphanumeric_plain b same in
            rw (other, same) (rw (no_space, no_escape) (rw ih refl))
        | inr escape ↦ rw (other, escape) (rw (hex_byte-digits b h.0, ih) refl)
      ]
    ]

cut-step :
    (c : ℕ) (s : Text)
    → (c == b'?') ≡ false
    → cut (codes "?=") (c ∷ s) ≡ before_too c (cut (codes "?=") s)
unfolding cut starts_with
cut-step c s h = rw h refl

hex_digit-plain : (d : ℕ) → (hex_digit d == b'?') ≡ false
hex_digit-plain d = ground arith

-- The marker after encoded bytes is the first.
cut-q_encode :
    (bytes rest : Text)
    → cut (codes "?=") (q_encode bytes ++ b'?' ∷ b'=' ∷ rest) ≡ some (q_encode bytes, rest)
unfolding cut starts_with q_encode
cut-q_encode [] rest = refl
cut-q_encode (b ∷ bytes) rest =
    let ih = cut-q_encode bytes rest in
    let tail = q_encode bytes ++ b'?' ∷ b'=' ∷ rest in
    elim (Bool-cases (b == b' ')) [
      | inl space ↦ rw (space, ih) refl
      | inr other ↦ elim (Bool-cases (is_alphanumeric b)) [
        | inl same ↦
            let (no_space, no_escape, no_marker) = alphanumeric_plain b same in
            rw (other, same) (cut-step b tail no_marker ∙ ap (before_too b) ih)
        | inr escape ↦
            let high = hex_digit (b / 16) in
            let low = hex_digit (b % 16) in
            rw (other, escape)
              (cut-step b'=' (high ∷ low ∷ tail) refl
                ∙ ap (before_too b'=') (
                    cut-step high (low ∷ tail) (hex_digit-plain (b / 16))
                    ∙ ap (before_too high)
                        (cut-step low tail (hex_digit-plain (b % 16)) ∙ ap (before_too low) ih)))
      ]
    ]

one_word :
    (d : Decoders) (bytes : Text) (n : ℕ)
    → All (λ b. b < 256) bytes
    → d.trim_start [] ≡ []
    → decode_words d (suc (suc n)) (codes "=?utf-8?Q?" ++ (q_encode bytes ++ codes "?="))
      ≡ d.utf8_lossy bytes
unfolding decode_words cut starts_with text_eq decode_charset
one_word d bytes n h trimmed =
    rw (cut-q_encode bytes [])
      (rw (quoted_from-q_encode bytes h, trimmed) (append-nil (d.utf8_lossy bytes)))

-- A header that is one encoded word in UTF-8 and the Q encoding is read as what the lossy decoding of UTF-8
-- makes of exactly the bytes that were encoded, if `trim_start` leaves the empty text empty.
pub decode_rfc2047-q_encode :
    (d : Decoders) (bytes : Text)
    → All (λ b. b < 256) bytes
    → d.trim_start [] ≡ []
    → decode_rfc2047 d (codes "=?utf-8?Q?" ++ (q_encode bytes ++ codes "?=")) ≡ d.utf8_lossy bytes
unfolding decode_rfc2047 starts_with contains
decode_rfc2047-q_encode d bytes h trimmed =
    one_word d bytes (length (codes "/utf-8?Q" ++ (q_encode bytes ++ codes "?="))) h trimmed

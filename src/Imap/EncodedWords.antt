-- ===== src/Imap/EncodedWords.antt =====
-- backend/src/imap/parse.rs: the encoded words of RFC 2047 in a header. A header is its UTF-8 bytes; base64, the
-- decoding of UTF-8 (lossy, and strict) and `trim_start` are parameters. A Latin-1 byte is the code point of
-- its number, which `latin1` writes in UTF-8.
pub mod Quoted
mod Rounds
mod Tests
use rav.Common.{
  ℕ, zero, suc, ◌+◌, ◌-◌, Bool, true, false, ◌||◌, Option, none, some, List, [], ◌∷◌, ◌++◌, leb,
  ◌&&◌, ◌==◌, if◌then◌else◌, length, map, unwrap_or, Text, codes, text_eq, starts_with, contains,
}
use rav.Links.{hex_byte, put_byte}

pub record Decoders : Type 0 where
  pub base64 : Text → Option Text
  pub utf8_lossy : Text → Text
  pub utf8 : Text → Option Text
  pub latin1 : Text → Text
  pub trim_start : Text → Text

-- `find`, with what stands before and after the first match.
abbrev drop : ℕ → Text → Text
drop zero s = s
drop (suc n) [] = []
drop (suc n) (c ∷ s) = drop n s

abbrev before_too : ℕ → Option (Text × Text) → Option (Text × Text)
before_too c none = none
before_too c (some (before, after)) = some (c ∷ before, after)

unfoldable pub cut : Text → Text → Option (Text × Text)
cut pattern [] = none
cut pattern (c ∷ s) =
    let later = before_too c (cut pattern s) in
    if starts_with (c ∷ s) pattern then some ([], drop (length pattern) (c ∷ s)) else later

pub record EncodedWord : Type 0 where
  pub charset : Text
  pub encoding : Text
  pub encoded_text : Text
  pub rest : Text

abbrev word_end : Text → Text → Option (Text × Text) → Option EncodedWord
word_end charset encoding none = none
word_end charset encoding (some (encoded_text, rest)) =
    some
      (record { charset = charset; encoding = encoding; encoded_text = encoded_text; rest = rest })

abbrev word_text : Text → Option (Text × Text) → Option EncodedWord
word_text charset none = none
word_text charset (some (encoding, after)) = word_end charset encoding (cut (codes "?=") after)

abbrev word_charset : Option (Text × Text) → Option EncodedWord
word_charset none = none
word_charset (some (charset, after)) = word_text charset (cut (codes "?") after)

-- `charset?encoding?text?=` at the start of what follows `=?`.
abbrev pub read_word : Text → Option EncodedWord
read_word after_start = word_charset (cut (codes "?") after_start)

-- What the loop of `decode_quoted_printable_header` waits for.
pub data Wait : Type 0 where
  plain : Wait
  high : Wait
  low : ℕ → Wait

unfoldable pub quoted_from : Wait → Text → Option Text
quoted_from Wait.plain [] = some []
quoted_from Wait.high [] = none
quoted_from (Wait.low hi) [] = none
quoted_from Wait.high (c ∷ s) = quoted_from (Wait.low c) s
quoted_from (Wait.low hi) (c ∷ s) = put_byte (hex_byte hi c) (quoted_from Wait.plain s)
quoted_from Wait.plain (c ∷ s) =
    let later = quoted_from Wait.plain s in
    let escaped = quoted_from Wait.high s in
    if c == b'_'
    then put_byte (some b' ') later
    else if c == b'='
    then escaped
    else put_byte (some c) later

abbrev pub decode_quoted_printable_header : Text → Option Text
decode_quoted_printable_header = quoted_from Wait.plain

abbrev upper : ℕ → ℕ
upper c = if leb b'a' c && leb c b'z' then c - 32 else c

abbrev lower : ℕ → ℕ
lower c = if leb b'A' c && leb c b'Z' then c + 32 else c

abbrev is_any : Text → List Text → Bool
is_any s [] = false
is_any s (t ∷ texts) = text_eq s t || is_any s texts

unfoldable pub decode_charset : Decoders → Text → Text → Text
decode_charset d charset bytes =
    let name = map lower charset in
    if is_any name (codes "utf-8" ∷ codes "utf8" ∷ [])
    then d.utf8_lossy bytes
    else if is_any name (codes "iso-8859-1" ∷ codes "latin1" ∷ codes "latin-1" ∷ [])
    then d.latin1 bytes
    else unwrap_or (d.utf8 bytes) (d.latin1 bytes)

abbrev decoded_bytes : Decoders → EncodedWord → Option Text
decoded_bytes d w =
    let encoding = map upper w.encoding in
    if text_eq encoding (codes "B")
    then d.base64 w.encoded_text
    else if text_eq encoding (codes "Q")
    then decode_quoted_printable_header w.encoded_text
    else none

-- What a word becomes: its text, or itself if it cannot be decoded.
abbrev shown : Decoders → EncodedWord → Option Text → Text
shown d w (some bytes) = decode_charset d w.charset bytes
shown d w none =
    codes "=?"
    ++ (w.charset ++ (codes "?" ++ (w.encoding ++ (codes "?" ++ (w.encoded_text ++ codes "?=")))))

-- The white space between two encoded words is left out.
abbrev skip_space : Decoders → Text → Text
skip_space d rest =
    if starts_with rest (codes "=?") || starts_with (d.trim_start rest) (codes "=?")
    then d.trim_start rest
    else rest

abbrev after_marker : Decoders → (Text → Text) → Text → Option EncodedWord → Text
after_marker d more after_start none = codes "=?" ++ more after_start
after_marker d more after_start (some w) =
    shown d w (decoded_bytes d w) ++ more (skip_space d w.rest)

abbrev from_marker : Decoders → (Text → Text) → Text → Option (Text × Text) → Text
from_marker d more remaining none = remaining
from_marker d more remaining (some (before, after_start)) =
    before ++ after_marker d more after_start (read_word after_start)

-- The `while let`; each round passes a marker, so the length of the input is rounds enough.
unfoldable pub decode_words : Decoders → ℕ → Text → Text
decode_words d zero remaining = remaining
decode_words d (suc rounds) remaining =
    from_marker d (decode_words d rounds) remaining (cut (codes "=?") remaining)

unfoldable pub decode_rfc2047 : Decoders → Text → Text
decode_rfc2047 d input =
    if contains input (codes "=?") then decode_words d (length input) input else input

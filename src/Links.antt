-- ===== src/Links.antt =====
-- backend/src/link_proxy.rs: signing and checking a proxied link. A byte is a number below 256. The
-- HMAC-SHA256, base64 and UTF-8 are parameters. The tag of a link is its UTF-8 bytes. An expiry is a number of
-- seconds below 2^63: a negative one is before every clock, and such a link is expired.
pub mod Hex
pub mod Verify
mod Tests
use rav.Common.{
  ℕ, ◌+◌, ◌-◌, ◌*◌, ◌/◌, ◌%◌, ◌^◌, Bool, true, false, not, ◌&&◌, ◌||◌, Option, none, some, List, [],
  ◌∷◌, ◌++◌, ltb, leb, ◌==◌, if◌then◌else◌, length, take, Text, text_eq, codes, starts_with, Result,
  ok, err, ◌>>=◌, ok_or,
}

abbrev pub Bytes : Type 0
Bytes = List ℕ

-- HMAC-SHA256 of a key and a message; `encode` and `decode` of URL_SAFE_NO_PAD; `as_bytes` and
-- `String::from_utf8`; `trim` and `to_lowercase`.
pub record Crypto : Type 0 where
  pub mac : Bytes → Bytes → Bytes
  pub encode : Bytes → Text
  pub decode : Text → Option Bytes
  pub as_bytes : Text → Bytes
  pub from_utf8 : Bytes → Option Text
  pub trim : Text → Text
  pub to_lowercase : Text → Text

abbrev pub tag_bytes : ℕ
tag_bytes = 16

-- The texts of the errors of `verify`; `panicked` is no error but the panic on a slice of the tag.
pub data LinkError : Type 0 where
  link_expired : LinkError
  invalid_url_encoding : LinkError
  not_utf8 : LinkError
  invalid_signature_encoding : LinkError
  invalid_signature : LinkError
  non_http_destination : LinkError
  panicked : LinkError

abbrev pub hex_digit : ℕ → ℕ
hex_digit d = if ltb d 10 then b'0' + d else b'a' + (d - 10)

unfoldable pub encode_hex : Bytes → Text
encode_hex [] = []
encode_hex (b ∷ bytes) = hex_digit (b / 16) ∷ hex_digit (b % 16) ∷ encode_hex bytes

-- A digit of `from_str_radix` with radix 16.
abbrev pub hex_value : ℕ → Option ℕ
hex_value c =
    if leb b'0' c && leb c b'9'
    then some (c - b'0')
    else if leb b'a' c && leb c b'f'
    then some (c - b'a' + 10)
    else if leb b'A' c && leb c b'F'
    then some (c - b'A' + 10)
    else none

abbrev two_digits : Option ℕ → Option ℕ → Option ℕ
two_digits (some high) (some low) = some (high * 16 + low)
two_digits (some high) none = none
two_digits none low = none

-- `u8::from_str_radix` on two characters, the first of which may be a plus sign.
abbrev pub hex_byte : ℕ → ℕ → Option ℕ
hex_byte c d = if c == b'+' then hex_value d else two_digits (hex_value c) (hex_value d)

abbrev pub put_byte : Option ℕ → Option Bytes → Option Bytes
put_byte none rest = none
put_byte (some b) none = none
put_byte (some b) (some bytes) = some (b ∷ bytes)

-- How `decode_hex` fails: by an error, or by a slice that cuts a character, which panics.
pub data HexError : Type 0 where
  bad_hex : HexError
  cut_character : HexError

-- `is_char_boundary` at the start of what is left.
abbrev pub at_boundary : Text → Bool
at_boundary [] = true
at_boundary (c ∷ s) = ltb c 128 || leb 192 c

abbrev pub push_byte : Option ℕ → Result Bytes HexError → Result Bytes HexError
push_byte none rest = err HexError.bad_hex
push_byte (some b) (err e) = err e
push_byte (some b) (ok bytes) = ok (b ∷ bytes)

-- The slices of two bytes, up to the first that fails.
unfoldable pub decode_pairs : Text → Result Bytes HexError
decode_pairs [] = ok []
decode_pairs (c ∷ []) = err HexError.bad_hex
decode_pairs (c ∷ d ∷ s) =
    let more = push_byte (hex_byte c d) (decode_pairs s) in
    if at_boundary (c ∷ d ∷ s) && at_boundary s then more else err HexError.cut_character

unfoldable pub decode_hex : Text → Result Bytes HexError
decode_hex s = if length s % 2 == 0 then decode_pairs s else err HexError.bad_hex

-- `i64::to_be_bytes`
abbrev pub be_bytes : ℕ → Bytes
be_bytes n =
    n / 2 ^ 56 % 256
    ∷ n / 2 ^ 48 % 256
    ∷ n / 2 ^ 40 % 256
    ∷ n / 2 ^ 32 % 256
    ∷ n / 2 ^ 24 % 256
    ∷ n / 2 ^ 16 % 256
    ∷ n / 2 ^ 8 % 256
    ∷ n % 256
    ∷ []

-- The calls of `update`, in their order.
unfoldable pub compute_mac : Crypto → Bytes → Text → Text → ℕ → Bytes
compute_mac k secret url user_hash exp =
    take tag_bytes
      (k.mac secret (k.as_bytes url ++ (b'\n' ∷ (k.as_bytes user_hash ++ (b'\n' ∷ be_bytes exp)))))

-- The values of the query `u=…&exp=…&s=…`.
pub record SignedLink : Type 0 where
  pub u : Text
  pub exp : ℕ
  pub s : Text

unfoldable pub sign_url : Crypto → Bytes → Text → Text → ℕ → SignedLink
sign_url k secret url user_hash exp = record {
  u = k.encode (k.as_bytes url);
  exp = exp;
  s = encode_hex (compute_mac k secret url user_hash exp);
}

abbrev pub is_http : Text → Bool
is_http url = starts_with url (codes "http://") || starts_with url (codes "https://")

-- The end of `verify`, from the decoded tag on; equality in constant time is equality.
abbrev pub check_tag : Bytes → Text → Bytes → Result Text LinkError
check_tag expected url provided =
    if not (length provided == tag_bytes) || not (text_eq expected provided)
    then err invalid_signature
    else if not (is_http url)
    then err non_http_destination
    else ok url

-- `map_err` on the tag.
abbrev pub read_tag : Result Bytes HexError → Result Bytes LinkError
read_tag (ok bytes) = ok bytes
read_tag (err HexError.bad_hex) = err invalid_signature_encoding
read_tag (err HexError.cut_character) = err panicked

unfoldable pub verify : Crypto → Bytes → SignedLink → Text → ℕ → Result Text LinkError
verify k secret link user_hash now =
    if ltb link.exp now
    then err link_expired
    else ok_or (k.decode link.u) invalid_url_encoding >>= (λ url_bytes.
      ok_or (k.from_utf8 url_bytes) not_utf8 >>= (λ url.
        read_tag (decode_hex link.s)
        >>= (λ provided. check_tag (compute_mac k secret url user_hash link.exp) url provided)))

abbrev before_colon : Text → Option Text
before_colon [] = none
before_colon (c ∷ s) =
    if c == b':'
    then some []
    else elim (before_colon s) [ none ↦ none | some scheme ↦ some (c ∷ scheme) ]

abbrev proxied_scheme : Crypto → Option Text → Bool
proxied_scheme k none = false
proxied_scheme k (some scheme) =
    text_eq (k.to_lowercase scheme) (codes "http")
    || text_eq (k.to_lowercase scheme) (codes "https")

abbrev proxied : Crypto → Text → Bool
proxied k [] = false
proxied k (c ∷ v) = if c == b'#' then false else proxied_scheme k (before_colon (c ∷ v))

unfoldable pub should_proxy : Crypto → Text → Bool
should_proxy k href = proxied k (k.trim href)

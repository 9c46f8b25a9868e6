-- ===== src/Links/Hex.antt =====
-- backend/src/link_proxy.rs: `encode_hex` and `decode_hex`.
use rav.Common.{
  ℕ, ◌*◌, ◌==◌, ltb, lt→ltb, length, true, ok, ◌/◌, ◌%◌, ◌<◌, ◌≡◌, refl, some, [], ◌∷◌, arith, All,
}
use rav.Links.{
  Bytes, hex_digit, hex_value, hex_byte, encode_hex, at_boundary, decode_pairs, decode_hex,
}

hex_value-hex_digit : (d : ℕ) → d < 16 → hex_value (hex_digit d) ≡ some d
hex_value-hex_digit d h = ground arith

pub hex_byte-digits :
    (b : ℕ) → b < 256 → hex_byte (hex_digit (b / 16)) (hex_digit (b % 16)) ≡ some b
hex_byte-digits b h =
    let high = hex_value-hex_digit (b / 16) (omega arith) in
    let low = hex_value-hex_digit (b % 16) (omega arith) in ground (arith, high, low)

hex_digit-lt : (d : ℕ) → d < 16 → hex_digit d < 128
hex_digit-lt d h = ground arith

at_boundary-encode_hex :
    (bytes : Bytes) → All (λ b. b < 256) bytes → at_boundary (encode_hex bytes) ≡ true
unfolding encode_hex
at_boundary-encode_hex [] h = refl
at_boundary-encode_hex (b ∷ bytes) h =
    let ascii = hex_digit-lt (b / 16) (omega (arith, h.0)) in ground (arith, ascii)

length-encode_hex : (bytes : Bytes) → length (encode_hex bytes) ≡ 2 * length bytes
unfolding encode_hex
length-encode_hex [] = refl
length-encode_hex (b ∷ bytes) = omega (arith, length-encode_hex bytes)

decode_pairs-encode_hex :
    (bytes : Bytes) → All (λ b. b < 256) bytes → decode_pairs (encode_hex bytes) ≡ ok bytes
unfolding decode_pairs encode_hex
decode_pairs-encode_hex [] h = refl
decode_pairs-encode_hex (b ∷ bytes) h =
    let ascii = hex_digit-lt (b / 16) (omega (arith, h.0)) in
    let first : ltb (hex_digit (b / 16)) 128 ≡ true = lt→ltb _ _ ascii in
    rw first (
      rw (at_boundary-encode_hex bytes h.1)
        (rw (hex_byte-digits b h.0, decode_pairs-encode_hex bytes h.1) refl))

-- The bytes that are printed in hexadecimal are read back.
pub decode_hex-encode_hex :
    (bytes : Bytes) → All (λ b. b < 256) bytes → decode_hex (encode_hex bytes) ≡ ok bytes
unfolding decode_hex
decode_hex-encode_hex bytes h =
    let even : (length (encode_hex bytes) % 2 == 0) ≡ true =
      ground (arith, length-encode_hex bytes) in
    rw even (decode_pairs-encode_hex bytes h)

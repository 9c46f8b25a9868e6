-- ===== src/Links/Tests.antt =====
-- Proxied links on concrete urls.
use rav.Common.{
  ℕ, zero, suc, ◌%◌, ◌<◌, ◌≡◌, ◌↔◌, refl, true, some, [], ◌∷◌, arith, All, codes, text_eq, length,
  map, ok, err, if◌then◌else◌, leb, ◌&&◌, ◌+◌,
}
use rav.Links.{
  Bytes, Crypto, is_http, should_proxy, sign_url, verify, non_http_destination, HexError,
  decode_pairs, decode_hex,
}
use rav.Links.Verify.{IsSound, IsSigned, verify-sign_url, verify-IsSigned}

abbrev zeros : ℕ → Bytes
zeros zero = []
zeros (suc n) = 0 ∷ zeros n

zeros-bytes : (n : ℕ) → All (λ b. b < 256) (zeros n)
zeros-bytes zero = tt
zeros-bytes (suc n) = (omega arith, zeros-bytes n)

-- The identity for base64 and UTF-8, and a MAC that shows the length of the message.
abbrev plain : Crypto
plain = record {
  mac = λ key message. length message % 256 ∷ zeros 31;
  encode = λ b. b;
  decode = λ t. some t;
  as_bytes = λ t. t;
  from_utf8 = λ b. some b;
  trim = λ t. t;
  to_lowercase = map (λ c. if leb b'A' c && leb c b'Z' then c + 32 else c);
}

plain-IsSound : IsSound plain
plain-IsSound = record {
  decode-encode = λ b. refl;
  from_utf8-as_bytes = λ t. refl;
  mac-bytes = λ key message. (omega arith, zeros-bytes 31);
  mac-length = λ key message. refl;
}

-- A link with a scheme in capitals is rewritten, and refused when the user follows it.
capitals_proxied : should_proxy plain (codes "HTTP://x") ≡ true
unfolding should_proxy text_eq
capitals_proxied = refl

verify-sign_url_example :
    verify plain [] (sign_url plain [] (codes "HTTP://x") (codes "u1") 200) (codes "u1") 150
    ≡ (if is_http (codes "HTTP://x") then ok (codes "HTTP://x") else err non_http_destination)
verify-sign_url_example =
    verify-sign_url plain [] (codes "HTTP://x") (codes "u1") 200 150 plain-IsSound (omega arith)

verify-IsSigned_example :
    (verify plain [] (sign_url plain [] (codes "http://x") (codes "u1") 200) (codes "u1") 150
      ≡ ok (codes "http://x"))
    ↔ IsSigned plain []
        (sign_url plain [] (codes "http://x") (codes "u1") 200)
        (codes "u1")
        150
        (codes "http://x")
verify-IsSigned_example =
    verify-IsSigned plain [] (sign_url plain [] (codes "http://x") (codes "u1") 200) (codes "u1")
      150 (codes "http://x")

-- A tag that cuts a letter of two bytes.
letter_panics : decode_hex (97 ∷ 195 ∷ 132 ∷ 97 ∷ []) ≡ err HexError.cut_character
unfolding decode_hex decode_pairs
letter_panics = refl

-- ===== src/Links/Verify.antt =====
-- backend/src/link_proxy.rs: which links `verify` lets pass.
use rav.Common.{
  map, codes, ◌/◌, ◌%◌, ◌^◌, ◌++◌, ◌≢◌, ◌>>=◌, Result, Result-cases, err, ℕ, zero, suc, ◌≤◌, ◌<◌,
  ◌≡◌, ◌↔◌, refl, ap, subst, ◌∙◌, inl, inr, true, false, some, [], ◌∷◌, arith, Bool-cases,
  Option-cases, if◌then◌else◌, ltb, ==_iff, length, take, All, Text, text_eq_iff, ok, err,
}
use rav.Links.{
  Bytes, Crypto, tag_bytes, SignedLink, compute_mac, sign_url, is_http, check_tag, verify,
  non_http_destination, decode_hex, HexError, LinkError, read_tag,
}
use rav.Links.Hex.{decode_hex-encode_hex}

-- What base64, UTF-8 and the MAC are documented to do.
pub record IsSound (k : Crypto) : Type 0 where
  pub decode-encode : (b : Bytes) → k.decode (k.encode b) ≡ some b
  pub from_utf8-as_bytes : (t : Text) → k.from_utf8 (k.as_bytes t) ≡ some t
  pub mac-bytes : (key message : Bytes) → All (λ b. b < 256) (k.mac key message)
  pub mac-length : (key message : Bytes) → length (k.mac key message) ≡ 32

length-take : (n : ℕ) (bytes : Bytes) → n ≤ length bytes → length (take n bytes) ≡ n
length-take zero bytes h = refl
length-take (suc n) [] h = omega arith
length-take (suc n) (b ∷ bytes) h = omega (arith, length-take n bytes (omega arith))

All-take : (n : ℕ) (bytes : Bytes) → All (λ b. b < 256) bytes → All (λ b. b < 256) (take n bytes)
All-take zero bytes h = tt
All-take (suc n) [] h = tt
All-take (suc n) (b ∷ bytes) h = (h.0, All-take n bytes h.1)

check_tag_same :
    (expected : Bytes) (url : Text)
    → length expected ≡ tag_bytes
    → check_tag expected url expected ≡ (if is_http url then ok url else err non_http_destination)
check_tag_same expected url h =
    let same = (text_eq_iff expected expected).1 refl in
    rw ((==_iff (length expected) 16).1 h)
      (rw same (elim (Bool-cases (is_http url)) [ inl e ↦ rw e refl | inr e ↦ rw e refl ]))

-- What is signed: the url, the user's hash and the eight bytes of the expiry, the highest first, with a line
-- feed after each of the two texts.
abbrev pub signed_message : Crypto → Text → Text → ℕ → Bytes
signed_message k url user exp =
    k.as_bytes url
    ++ (codes "\n"
        ++ (k.as_bytes user
            ++ (codes "\n" ++ map (λ i. exp / 256 ^ i % 256) (7 ∷ 6 ∷ 5 ∷ 4 ∷ 3 ∷ 2 ∷ 1 ∷ 0 ∷ []))))

compute_mac-signed_message :
    (k : Crypto) (secret : Bytes) (url user : Text) (exp : ℕ)
    → compute_mac k secret url user exp ≡ take 16 (k.mac secret (signed_message k url user exp))
unfolding compute_mac
compute_mac-signed_message k secret url user exp =
    let last : exp ≡ exp / 1 = omega arith in
    ap
      (λ (low : ℕ). take 16 (
        k.mac secret (
          k.as_bytes url
          ++ (b'\n'
              ∷ (k.as_bytes user
                  ++ (b'\n'
                      ∷ (map (λ i. exp / 256 ^ i % 256) (7 ∷ 6 ∷ 5 ∷ 4 ∷ 3 ∷ 2 ∷ 1 ∷ [])
                          ++ low % 256 ∷ [])))))))
      last

tag_length :
    (k : Crypto) (secret : Bytes) (url user : Text) (exp : ℕ)
    → IsSound k
    → length (compute_mac k secret url user exp) ≡ 16
unfolding compute_mac
tag_length k secret url user exp sound = length-take 16 _ (le _ (sound.mac-length secret _))
  where
    le : (n : ℕ) → n ≡ 32 → 16 ≤ n
    le n e = omega arith

tag-IsBytes :
    (k : Crypto) (secret : Bytes) (url user : Text) (exp : ℕ)
    → IsSound k
    → All (λ b. b < 256) (compute_mac k secret url user exp)
unfolding compute_mac
tag-IsBytes k secret url user exp sound = All-take 16 _ (sound.mac-bytes secret _)

-- A link that was signed for a user is accepted for this user with the same secret up to its expiry,
-- and gives the url that was signed, if the url starts with `http://` or `https://` in these letters;
-- any other url is refused.
pub verify-sign_url :
    (k : Crypto) (secret : Bytes) (url user : Text) (exp now : ℕ)
    → IsSound k
    → now ≤ exp
    → verify k secret (sign_url k secret url user exp) user now
      ≡ (if is_http url then ok url else err non_http_destination)
unfolding verify sign_url
verify-sign_url k secret url user exp now sound live =
    let tag : Bytes = compute_mac k secret url user exp in
    let read = decode_hex-encode_hex tag (tag-IsBytes k secret url user exp sound) in
    let in_time : ltb exp now ≡ false = ground (arith, live) in
    let long : length tag ≡ 16 = tag_length k secret url user exp sound in
    rw in_time (
      rw (sound.decode-encode (k.as_bytes url))
        (rw (sound.from_utf8-as_bytes url) (rw read (check_tag_same tag url long))))

-- What a link that passes with a tag is.
abbrev Passes : Crypto → SignedLink → ℕ → Text → Bytes → Type 0
Passes k link now url tag =
    (now ≤ link.exp)
    × ((b : Bytes) × (k.decode link.u ≡ some b) × (k.from_utf8 b ≡ some url))
    × (decode_hex link.s ≡ ok tag)
    × (length tag ≡ tag_bytes)
    × (is_http url ≡ true)

-- Not expired, with the url in it, and with the first sixteen bytes of the HMAC of that url, the user and
-- the expiry under the secret.
abbrev pub IsSigned : Crypto → Bytes → SignedLink → Text → ℕ → Text → Type 0
IsSigned k secret link user now url =
    Passes k link now url (take 16 (k.mac secret (signed_message k url user link.exp)))

check_tag_ok :
    (expected provided : Bytes) (url dest : Text)
    → check_tag expected url provided ≡ ok dest
    → (url ≡ dest) × (provided ≡ expected) × (length expected ≡ tag_bytes) × (is_http url ≡ true)
check_tag_ok expected provided url dest h =
    ground (arith, text_eq_iff expected provided, ==_iff (length provided) 16)

tag_refused :
    (e : HexError) (rest : Bytes → Result Text LinkError) (url : Text)
    → (read_tag (err e) >>= rest) ≢ ok url
tag_refused HexError.bad_hex rest url h = cc
tag_refused HexError.cut_character rest url h = cc

ok_cases :
    (k : Crypto) (secret : Bytes) (link : SignedLink) (user : Text) (now : ℕ) (url : Text)
    → verify k secret link user now ≡ ok url
    → Passes k link now url (compute_mac k secret url user link.exp)
unfolding verify
ok_cases k secret link user now url h = elim (Bool-cases (ltb link.exp now)) [
  | inl e ↦ cc (rw e at h)
  | inr e ↦
      let h1 = rw e at h in
      elim (Option-cases (k.decode link.u)) [
        | inl n ↦ cc (rw n at h1)
        | inr (b, decoded) ↦
            let h2 = rw decoded at h1 in
            elim (Option-cases (k.from_utf8 b)) [
              | inl n ↦ cc (rw n at h2)
              | inr (text, utf8) ↦
                  let h3 = rw utf8 at h2 in
                  elim (Result-cases (decode_hex link.s)) [
                    | inr (e', n) ↦ absurd (tag_refused e' _ url (rw n at h3))
                    | inl (provided, read) ↦
                        let (same, tag, long, http) =
                          check_tag_ok _ provided text url (rw read at h3) in
                        subst (λ t. Passes k link now t (compute_mac k secret t user link.exp)) same
                          (ground (arith, e), (b, decoded, utf8), read ∙ ap ok tag, long, http)
                  ]
            ]
      ]
]

signed_ok :
    (k : Crypto) (secret : Bytes) (link : SignedLink) (user : Text) (now : ℕ) (url : Text)
    → Passes k link now url (compute_mac k secret url user link.exp)
    → verify k secret link user now ≡ ok url
unfolding verify
signed_ok k secret link user now url (live, (b, decoded, utf8), read, long, http) =
    let in_time : ltb link.exp now ≡ false = ground (arith, live) in
    rw in_time (
      rw decoded (
        rw utf8 (
          rw read
            (check_tag_same (compute_mac k secret url user link.exp) url long ∙ rw http refl))))

-- A request is sent on to a url exactly if its link is not past its expiry, the link's url decodes to
-- that url, its tag is read as the first sixteen bytes of the HMAC, under the secret, of this url, this user's
-- hash and this expiry, framed with line feeds, and the url starts with `http://` or `https://`.
pub verify-IsSigned :
    (k : Crypto) (secret : Bytes) (link : SignedLink) (user : Text) (now : ℕ) (url : Text)
    → (verify k secret link user now ≡ ok url) ↔ IsSigned k secret link user now url
verify-IsSigned k secret link user now url =
    subst (λ tag. (verify k secret link user now ≡ ok url) ↔ Passes k link now url tag)
      (compute_mac-signed_message k secret url user link.exp)
      (ok_cases k secret link user now url, signed_ok k secret link user now url)

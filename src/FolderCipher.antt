-- ===== src/FolderCipher.antt =====
-- backend/src/folder_cipher.rs: the ids that stand for folder names. AES-256-GCM under the session's key, base64url
-- without padding, and UTF-8 are parameters; the nonce is drawn at random.
mod Tests
use rav.Common.{
  codes, ℕ, zero, suc, ◌+◌, ◌≡◌, refl, ap, inl, inr, ◌∙◌, Bool, true, false, Option, none, some,
  List, [], ◌∷◌, ◌++◌, arith, ltb, ◌==◌, if◌then◌else◌, Bool-cases, length, length-append, take,
  Text, Result, ok, err, ◌>>=◌, ok_or,
}
use rav.Outbox.Errors.{AppError}

-- A byte string.
abbrev pub Bytes : Type 0
Bytes = List ℕ

abbrev pub drop : ℕ → Bytes → Bytes
drop zero bytes = bytes
drop (suc n) [] = []
drop (suc n) (b ∷ bytes) = drop n bytes

abbrev pub bad_id : AppError
bad_id = AppError.bad_request (codes "Invalid folder ID")

pub record Codec : Type 0 where
  pub seal : Bytes → Bytes → Bytes
  pub open_sealed : Bytes → Bytes → Option Bytes
  pub encode : Bytes → Text
  pub decode : Text → Option Bytes
  pub as_bytes : Text → Bytes
  pub from_utf8 : Bytes → Option Text

unfoldable pub encrypt : Codec → Bytes → Text → Text
encrypt c nonce folder_name = c.encode (nonce ++ c.seal nonce (c.as_bytes folder_name))

abbrev pub opened : Codec → Bytes → Result Text AppError
opened c bytes = ok_or (c.open_sealed (take 12 bytes) (drop 12 bytes)) bad_id >>= λ plaintext.
    ok_or (c.from_utf8 plaintext) bad_id

unfoldable pub decrypt : Codec → Text → Result Text AppError
decrypt c folder_id = ok_or (c.decode folder_id) bad_id >>= λ bytes.
    if ltb (length bytes) 29 then err bad_id else opened c bytes

take-append : (n : ℕ) (xs ys : Bytes) → length xs ≡ n → take n (xs ++ ys) ≡ xs
take-append zero [] ys h = refl
take-append zero (x ∷ xs) ys h = ground (arith, h)
take-append (suc n) [] ys h = ground (arith, h)
take-append (suc n) (x ∷ xs) ys h = ap (λ t. x ∷ t) (take-append n xs ys (omega (arith, h)))

drop-append : (n : ℕ) (xs ys : Bytes) → length xs ≡ n → drop n (xs ++ ys) ≡ ys
drop-append zero [] ys h = refl
drop-append zero (x ∷ xs) ys h = ground (arith, h)
drop-append (suc n) [] ys h = ground (arith, h)
drop-append (suc n) (x ∷ xs) ys h = drop-append n xs ys (omega (arith, h))

-- With base64 and UTF-8 that are read back, a sealing that is opened again under its nonce and adds a tag of 16
-- bytes, and a nonce of 12 bytes, the id of a folder is decrypted to the folder's name; that of the empty
-- name is refused.
pub decrypt-encrypt :
    (c : Codec) (nonce : Bytes) (name : Text)
    → ((bytes : Bytes) → c.decode (c.encode bytes) ≡ some bytes)
    → ((s : Text) → c.from_utf8 (c.as_bytes s) ≡ some s)
    → ((n bytes : Bytes) → c.open_sealed n (c.seal n bytes) ≡ some bytes)
    → ((n bytes : Bytes) → length (c.seal n bytes) ≡ length bytes + 16)
    → length nonce ≡ 12
    → decrypt c (encrypt c nonce name)
      ≡ (if length (c.as_bytes name) == 0 then err bad_id else ok name)
unfolding decrypt encrypt
decrypt-encrypt c nonce name decoded utf8 unsealed tagged twelve =
    let sealed = c.seal nonce (c.as_bytes name) in
    let size = length-append nonce sealed in
    let tag = tagged nonce (c.as_bytes name) in
    elim (Bool-cases (length (c.as_bytes name) == 0)) [
      | inl e ↦
          let short : ltb (length (nonce ++ sealed)) 29 ≡ true =
            ground (arith, size, tag, twelve, e) in
          rw (decoded (nonce ++ sealed), e) (rw short refl)
      | inr e ↦
          let long : ltb (length (nonce ++ sealed)) 29 ≡ false =
            ground (arith, size, tag, twelve, e) in
          rw (decoded (nonce ++ sealed), e)
            (rw
              (
                long,
                take-append 12 nonce sealed twelve,
                drop-append 12 nonce sealed twelve,
                unsealed nonce (c.as_bytes name),
              )
              (rw (utf8 name) refl))
    ]

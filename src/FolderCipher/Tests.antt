-- ===== src/FolderCipher/Tests.antt =====
-- The round trip of a folder id, with a sealing that sets sixteen zeros before the text.
use rav.Common.{◌≡◌, refl, some, [], ◌∷◌, ◌++◌, codes, ok}
use rav.FolderCipher.{Bytes, Codec, drop, encrypt, decrypt}

abbrev zeros : Bytes
zeros = 0 ∷ 0 ∷ 0 ∷ 0 ∷ 0 ∷ 0 ∷ 0 ∷ 0 ∷ 0 ∷ 0 ∷ 0 ∷ 0 ∷ 0 ∷ 0 ∷ 0 ∷ 0 ∷ []

abbrev codec : Codec
codec = record {
  seal = λ nonce bytes. zeros ++ bytes;
  open_sealed = λ nonce bytes. some (drop 16 bytes);
  encode = λ bytes. bytes;
  decode = λ text. some text;
  as_bytes = λ name. name;
  from_utf8 = λ bytes. some bytes;
}

abbrev nonce : Bytes
nonce = 1 ∷ 2 ∷ 3 ∷ 4 ∷ 5 ∷ 6 ∷ 7 ∷ 8 ∷ 9 ∷ 10 ∷ 11 ∷ 12 ∷ []

inbox_read : decrypt codec (encrypt codec nonce (codes "INBOX")) ≡ ok (codes "INBOX")
unfolding decrypt encrypt
inbox_read = refl

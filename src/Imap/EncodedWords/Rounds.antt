-- ===== src/Imap/EncodedWords/Rounds.antt =====
-- backend/src/imap/parse.rs: the rounds of the loop of `decode_rfc2047`.
use rav.Common.{
  ℕ, zero, suc, ◌<◌, ◌≤◌, ◌≡◌, refl, ap, inl, inr, ◌||◌, Option, none, some, [], ◌∷◌, ◌++◌, arith,
  Bool-cases, length, Text, codes, starts_with,
}
use rav.Imap.EncodedWords.{
  Decoders, EncodedWord, drop, before_too, cut, word_end, word_text, word_charset, read_word,
  decoded_bytes, shown, skip_space, after_marker, from_marker, decode_words,
}

-- What a search leaves is shorter than `n`.
RestBelow : ℕ → Option (Text × Text) → Type 0
RestBelow n none = Unit
RestBelow n (some (before, after)) = length after < n

WordBelow : ℕ → Option EncodedWord → Type 0
WordBelow n none = Unit
WordBelow n (some w) = length w.rest < n

drop-shorter : (n : ℕ) (s : Text) → length (drop n s) ≤ length s
drop-shorter zero s = omega arith
drop-shorter (suc n) [] = omega arith
drop-shorter (suc n) (c ∷ s) = let ih = drop-shorter n s in omega (arith, ih)

before_too-below :
    (n : ℕ) (c : ℕ) (r : Option (Text × Text)) → RestBelow n r → RestBelow (suc n) (before_too c r)
unfolding RestBelow
before_too-below n c none h = h
before_too-below n c (some (before, after)) h = omega (arith, h)

cut-below : (p : ℕ) (pattern s : Text) → RestBelow (length s) (cut (p ∷ pattern) s)
unfolding cut RestBelow
cut-below p pattern [] = tt
cut-below p pattern (c ∷ s) =
    let ih = cut-below p pattern s in
    elim (Bool-cases (starts_with (c ∷ s) (p ∷ pattern))) [
      | inl found ↦ rw found (let d = drop-shorter (length pattern) s in omega (arith, d))
      | inr later ↦ rw later (before_too-below (length s) c (cut (p ∷ pattern) s) ih)
    ]

below_mono : (n m : ℕ) (r : Option (Text × Text)) → n ≤ m → RestBelow n r → RestBelow m r
unfolding RestBelow
below_mono n m none le h = h
below_mono n m (some (before, after)) le h = omega (arith, h, le)

word_mono : (n m : ℕ) (w : Option EncodedWord) → n ≤ m → WordBelow n w → WordBelow m w
unfolding WordBelow
word_mono n m none le h = h
word_mono n m (some w) le h = omega (arith, h, le)

word_end-below :
    (n : ℕ) (charset encoding : Text) (r : Option (Text × Text))
    → RestBelow n r
    → WordBelow n (word_end charset encoding r)
unfolding RestBelow WordBelow
word_end-below n charset encoding none h = h
word_end-below n charset encoding (some (encoded_text, rest)) h = h

word_text-below :
    (n : ℕ) (charset : Text) (r : Option (Text × Text))
    → RestBelow n r
    → WordBelow n (word_text charset r)
unfolding RestBelow WordBelow
word_text-below n charset none h = h
word_text-below n charset (some (encoding, after)) h =
    word_mono (length after) n (word_text charset (some (encoding, after))) (omega (arith, h)) (
      word_end-below (length after) charset encoding (cut (codes "?=") after)
        (cut-below b'?' (codes "=") after))

word_charset-below :
    (n : ℕ) (r : Option (Text × Text)) → RestBelow n r → WordBelow n (word_charset r)
unfolding RestBelow WordBelow
word_charset-below n none h = h
word_charset-below n (some (charset, after)) h =
    word_mono (length after) n (word_charset (some (charset, after))) (omega (arith, h))
      (word_text-below (length after) charset (cut (codes "?") after) (cut-below b'?' [] after))

read_word-below : (s : Text) → WordBelow (length s) (read_word s)
read_word-below s = word_charset-below (length s) (cut (codes "?") s) (cut-below b'?' [] s)

skip_space-shorter :
    (d : Decoders) (s : Text)
    → ((t : Text) → length (d.trim_start t) ≤ length t)
    → length (skip_space d s) ≤ length s
skip_space-shorter d s h =
    elim (Bool-cases (starts_with s (codes "=?") || starts_with (d.trim_start s) (codes "=?"))) [
      | inl e ↦ rw e (h s)
      | inr e ↦ rw e (omega arith)
    ]

after_marker-agree :
    (d : Decoders) (f g : Text → Text) (after : Text) (w : Option EncodedWord)
    → ((t : Text) → length (d.trim_start t) ≤ length t)
    → WordBelow (length after) w
    → ((t : Text) → length t ≤ length after → f t ≡ g t)
    → after_marker d f after w ≡ after_marker d g after w
unfolding WordBelow
after_marker-agree d f g after none trim h agree =
    ap (λ t. codes "=?" ++ t) (agree after (omega arith))
after_marker-agree d f g after (some w) trim h agree =
    let skipped = skip_space-shorter d w.rest trim in
    ap (λ t. shown d w (decoded_bytes d w) ++ t)
      (agree (skip_space d w.rest) (omega (arith, h, skipped)))

from_marker-agree :
    (d : Decoders) (f g : Text → Text) (s : Text) (r : Option (Text × Text))
    → ((t : Text) → length (d.trim_start t) ≤ length t)
    → RestBelow (length s) r
    → ((t : Text) → length t < length s → f t ≡ g t)
    → from_marker d f s r ≡ from_marker d g s r
unfolding RestBelow
from_marker-agree d f g s none trim h agree = refl
from_marker-agree d f g s (some (before, after)) trim h agree =
    ap (λ t. before ++ t)
      (after_marker-agree d f g after (read_word after) trim (read_word-below after)
        (λ t le. agree t (omega (arith, h, le))))

-- If `trim_start` makes no text longer, then any two numbers of rounds that are not below the length of the
-- header give the same text: the loop has ended in both.
pub decode_words-enough :
    (d : Decoders) (n m : ℕ) (s : Text)
    → ((t : Text) → length (d.trim_start t) ≤ length t)
    → length s ≤ n
    → length s ≤ m
    → decode_words d n s ≡ decode_words d m s
unfolding decode_words cut
decode_words-enough d zero zero s trim hn hm = refl
decode_words-enough d zero (suc m) [] trim hn hm = refl
decode_words-enough d zero (suc m) (c ∷ s) trim hn hm = ground (arith, hn)
decode_words-enough d (suc n) zero [] trim hn hm = refl
decode_words-enough d (suc n) zero (c ∷ s) trim hn hm = ground (arith, hm)
decode_words-enough d (suc n) (suc m) s trim hn hm =
    from_marker-agree d (decode_words d n) (decode_words d m) s (cut (codes "=?") s) trim
      (cut-below b'=' (codes "?") s)
      (λ t lt. decode_words-enough d n m t trim (omega (arith, lt, hn)) (omega (arith, lt, hm)))

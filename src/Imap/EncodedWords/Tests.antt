-- ===== src/Imap/EncodedWords/Tests.antt =====
-- The reading of encoded words, with decoders that leave ASCII as it is.
use rav.Common.{
  ◌≡◌, refl, none, some, [], ◌∷◌, ◌++◌, arith, Text, codes, contains, text_eq, ◌==◌, if◌then◌else◌,
}
use rav.Imap.EncodedWords.{Decoders, decode_words, decode_rfc2047, cut, quoted_from, decode_charset}
use rav.Imap.EncodedWords.Quoted.{q_encode, decode_rfc2047-q_encode}

abbrev trim : Text → Text
trim [] = []
trim (c ∷ s) = let rest = trim s in if c == b' ' then rest else c ∷ s

abbrev ascii : Decoders
ascii = record {
  base64 = λ text. none;
  utf8_lossy = λ bytes. bytes;
  utf8 = λ bytes. some bytes;
  latin1 = λ bytes. bytes;
  trim_start = trim;
}

-- The space between two encoded words is left out, the one before the text is not.
words_joined : decode_rfc2047 ascii (codes "=?utf-8?q?a_b?= =?UTF-8?Q?=21?= c") ≡ codes "a b! c"
unfolding decode_rfc2047 contains decode_words cut text_eq quoted_from decode_charset
words_joined = refl

-- A word that is not decoded stays as it is.
base64_kept : decode_rfc2047 ascii (codes "=?utf-8?B?!?= =?x") ≡ codes "=?utf-8?B?!?==?x"
unfolding decode_rfc2047 contains decode_words cut text_eq
base64_kept = refl

decode_rfc2047-q_encode_example :
    decode_rfc2047 ascii (codes "=?utf-8?Q?" ++ (q_encode (codes "ok, go") ++ codes "?="))
    ≡ codes "ok, go"
decode_rfc2047-q_encode_example =
    decode_rfc2047-q_encode ascii (codes "ok, go")
      (omega arith, (omega arith, (omega arith, (omega arith, (omega arith, (omega arith, tt))))))
      refl

-- ===== src/ManageSieve/Tests.antt =====
-- The upload of a script to concrete servers.
use rav.Common.{◌≡◌, refl, true, false, List, [], ◌∷◌, All, Text, codes, starts_with, text_eq, ok}
use rav.ManageSieve.{do_push, read_capabilities, expect_ok, run_session}
use rav.ManageSieve.Encrypted.{IsPrivate, do_push-IsPrivate}

abbrev untrimmed : Text → Text
untrimmed line = line

abbrev banner : List Text
banner = codes "\"SASL\" \"\"" ∷ codes "\"STARTTLS\"" ∷ codes "OK" ∷ codes "OK" ∷ []

abbrev agrees : List Text
agrees = codes "OK" ∷ codes "OK" ∷ codes "OK" ∷ codes "OK" ∷ []

pushed : (do_push untrimmed false banner true agrees).0 ≡ ok tt
unfolding do_push read_capabilities expect_ok run_session starts_with text_eq
pushed = refl

do_push-IsPrivate_example : All IsPrivate (do_push untrimmed false banner true agrees).1
do_push-IsPrivate_example = do_push-IsPrivate untrimmed banner true agrees

-- ===== src/Csrf/Tests.antt =====
-- Requests with and without the header.
use rav.Common.{◌≡◌, refl, [], ◌∷◌, codes, text_eq}
use rav.Csrf.{Method, Request, Response, contains_key, rejection, csrf_protection}

abbrev done : Request → Response
done request = record { status = 200; code = []; message = [] }

post_refused : csrf_protection done (record { method = Method.post; headers = [] }) ≡ rejection
unfolding csrf_protection contains_key
post_refused = refl

-- An empty value is enough.
empty_accepted :
    csrf_protection done
      (record { method = Method.post; headers = (codes "x-requested-with", []) ∷ [] })
    ≡ record { status = 200; code = []; message = [] }
unfolding csrf_protection contains_key text_eq
empty_accepted = refl

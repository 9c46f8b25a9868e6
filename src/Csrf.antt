-- ===== src/Csrf.antt =====
-- backend/src/auth/csrf.rs: the check of the header `X-Requested-With`. The headers are the list of their names, which
-- the `http` crate keeps in lower case, and their values; the handlers behind the check are an argument.
mod Tests
use rav.Common.{
  ℕ, ◌≡◌, ◌≢◌, ◌⊎◌, ◌↔◌, ap, sym, subst, Memᴰ, refl, inl, inr, Bool, true, false, ◌||◌, ◌&&◌, List,
  [], ◌∷◌, if◌then◌else◌, Bool-cases, Text, codes, text_eq, text_eq_iff, not, arith, mem-of_cons,
}

pub data Method : Type 0 where
  options : Method
  get : Method
  post : Method
  put : Method
  delete : Method
  head : Method
  trace : Method
  connect : Method
  patch : Method
  extension : Text → Method

pub record Request : Type 0 where
  pub method : Method
  pub headers : List (Text × Text)

-- `STATE_CHANGING_METHODS.contains(method)`
abbrev pub is_state_changing : Method → Bool
is_state_changing Method.post = true
is_state_changing Method.put = true
is_state_changing Method.delete = true
is_state_changing Method.patch = true
is_state_changing Method.options = false
is_state_changing Method.get = false
is_state_changing Method.head = false
is_state_changing Method.trace = false
is_state_changing Method.connect = false
is_state_changing (Method.extension name) = false

unfoldable pub contains_key : Text → List (Text × Text) → Bool
contains_key name [] = false
contains_key name ((other, value) ∷ headers) = text_eq other name || contains_key name headers

pub record Response : Type 0 where
  pub status : ℕ
  pub code : Text
  pub message : Text

abbrev pub rejection : Response
rejection = record {
  status = 403;
  code = codes "CSRF_REJECTED";
  message = codes "Missing X-Requested-With header";
}

unfoldable pub csrf_protection : (Request → Response) → Request → Response
csrf_protection next request =
    if is_state_changing request.method
      && not (contains_key (codes "x-requested-with") request.headers)
    then rejection
    else next request

-- What the requests behind the check have: a method that changes no state, or the header with any value.
pub IsAllowed : Request → Type 0
IsAllowed request =
    (is_state_changing request.method ≡ false)
    ⊎ ((value : Text) × Memᴰ (codes "x-requested-with", value) request.headers)

contains_key-of_mem :
    (name value : Text) (headers : List (Text × Text))
    → Memᴰ (name, value) headers
    → contains_key name headers ≡ true
unfolding contains_key
contains_key-of_mem name value [] m = elim m [ ]
contains_key-of_mem name value ((other, v) ∷ headers) m = elim (mem-of_cons m) [
  | inl e ↦ let same = (text_eq_iff other name).1 (sym (ap (λ p. p.0) e)) in rw same refl
  | inr n ↦ let later = contains_key-of_mem name value headers n in ground (arith, later)
]

mem-of_contains_key :
    (name : Text) (headers : List (Text × Text))
    → contains_key name headers ≡ true
    → (value : Text) × Memᴰ (name, value) headers
unfolding contains_key
mem-of_contains_key name [] h = cc
mem-of_contains_key name ((other, v) ∷ headers) h = elim (Bool-cases (text_eq other name)) [
  | inl same ↦ (v, Memᴰ.head (ap (λ n. (n, v)) (sym ((text_eq_iff other name).0 same))))
  | inr differs ↦
      let (value, m) = mem-of_contains_key name headers (rw differs at h) in (value, Memᴰ.tail m)
]

IsAllowed-cases :
    (request : Request)
    → (IsAllowed request
        × ((is_state_changing request.method
              && not (contains_key (codes "x-requested-with") request.headers))
            ≡ false))
      ⊎ ((¬ IsAllowed request)
          × ((is_state_changing request.method
                && not (contains_key (codes "x-requested-with") request.headers))
              ≡ true))
unfolding IsAllowed
IsAllowed-cases request =
    let name = codes "x-requested-with" in
    elim (Bool-cases (is_state_changing request.method)) [
      | inr safe ↦ inl (inl safe, rw safe refl)
      | inl changing ↦ elim (Bool-cases (contains_key name request.headers)) [
        | inl found ↦
            inl (inr (mem-of_contains_key name request.headers found), rw (changing, found) refl)
        | inr missing ↦ inr (
          elim [
            | inl safe ↦ cc
            | inr (value, m) ↦ let found = contains_key-of_mem name value request.headers m in cc
          ],
          rw (changing, missing) refl,
        )
      ]
    ]

-- A request is handed to the handlers exactly if its method changes no state or it has the header, whose value
-- may be empty; every other request is answered with the rejection.
pub csrf_protection-IsAllowed :
    (next : Request → Response) (request : Request)
    → (IsAllowed request × (csrf_protection next request ≡ next request))
      ⊎ ((¬ IsAllowed request) × (csrf_protection next request ≡ rejection))
unfolding csrf_protection
csrf_protection-IsAllowed next request = elim (IsAllowed-cases request) [
  | inl (allowed, passes) ↦ inl (allowed, rw passes refl)
  | inr (refused, fails) ↦ inr (refused, rw fails refl)
]

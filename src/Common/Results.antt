-- ===== src/Common/Results.antt =====
-- Rust's `Result` with `?`, and the conversions out of `Option` that the models use.
use mathlib.Core.Path.{◌≡◌, refl}
use mathlib.Core.Logic.{◌⊎◌, inl, inr}
use mathlib.Core.Option.{Option, none, some}

pub data Result {ℓ κ} (T : Type ℓ) (E : Type κ) : Type (ℓ ⊔ κ) where
  ok : T → Result T E
  err : E → Result T E

module _ {ℓ} {T : Type ℓ} where
  -- `o.unwrap_or(default)`
  abbrev pub unwrap_or : Option T → T → T
  unwrap_or (some value) default = value
  unwrap_or none default = default

  -- `o.ok_or(error)`
  abbrev pub ok_or {κ} : {E : Type κ} → Option T → E → Result T E
  ok_or (some value) error = ok value
  ok_or none error = err error

-- What `r?` does with the rest of the function.
infixl 5 ◌>>=◌
abbrev pub ◌>>=◌ {ℓ κ μ} :
    {T : Type ℓ} {U : Type κ} {E : Type μ} → Result T E → (T → Result U E) → Result U E
err error >>= rest = err error
ok value >>= rest = rest value

pub Result-cases {ℓ κ} :
    {T : Type ℓ} {E : Type κ} (r : Result T E)
    → ((value : T) × (r ≡ ok value)) ⊎ ((error : E) × (r ≡ err error))
Result-cases (ok value) = inl (value, refl)
Result-cases (err error) = inr (error, refl)

-- What succeeds after `?` had a value before it.
pub bind-ok {ℓ κ μ} :
    {T : Type ℓ} {U : Type κ} {E : Type μ} (r : Result T E) (rest : T → Result U E) (value : U)
    → (r >>= rest) ≡ ok value
    → (first : T) × (r ≡ ok first) × (rest first ≡ ok value)
bind-ok (ok first) rest value h = (first, refl, h)
bind-ok (err error) rest value h = cc

pub ok_or-ok {ℓ κ} :
    {T : Type ℓ} {E : Type κ} (o : Option T) (error : E) (value : T)
    → ok_or o error ≡ ok value
    → o ≡ some value
ok_or-ok (some held) error value h = cc
ok_or-ok none error value h = cc

pub ok-injective {ℓ κ} :
    {T : Type ℓ} {E : Type κ} (a b : T) → Path (Result T E) (ok a) (ok b) → a ≡ b
ok-injective a b h = cc

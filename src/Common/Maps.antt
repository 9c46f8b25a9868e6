-- ===== src/Common/Maps.antt =====
-- A `HashMap` whose keys have an equality test, as an association list without a second entry for a key
-- it has.
use Prim.Native.Nat.{suc}
use mathlib.Core.Path.{◌≡◌, refl, ap}
use mathlib.Core.Logic.{◌↔◌, inl, inr}
use mathlib.Core.Bool.{Bool, true}
use mathlib.Core.Option.{Option, none, some}
use mathlib.Core.List.{List, [], ◌∷◌}
use native.Mathlib.Omega.{arith}
use rav.Common.Checks.{if◌then◌else◌, Bool-cases}
use rav.Common.Lists.{length}

-- The `Eq` of Rust.
pub record Eq {ℓ} (K : Type ℓ) : Type ℓ where
  pub eq : K → K → Bool
  pub eq_law : (j k : K) → (eq j k ≡ true) ↔ (j ≡ k)

abbrev pub Map {ℓ κ} : Type ℓ → Type κ → Type (ℓ ⊔ κ)
Map K V = List (K × V)

pub eq-same {ℓ} : {K : Type ℓ} ⦃e : Eq K⦄ (k : K) → e.eq k k ≡ true
eq-same ⦃e⦄ k = (e.eq_law k k).1 refl

module _ {ℓ κ} {K : Type ℓ} {V : Type κ} ⦃e : Eq K⦄ where
  unfoldable pub get : K → Map K V → Option V
  get wanted [] = none
  get wanted ((key, held) ∷ others) =
      let later = get wanted others in if e.eq key wanted then some held else later

  unfoldable pub insert : K → V → Map K V → Map K V
  insert new value [] = (new, value) ∷ []
  insert new value ((key, held) ∷ others) =
      let later = insert new value others in
      if e.eq key new then (key, value) ∷ others else (key, held) ∷ later

  pub get-insert :
      (new wanted : K) (value : V) (m : Map K V)
      → get wanted (insert new value m) ≡ (if e.eq new wanted then some value else get wanted m)
  unfolding get insert
  get-insert new wanted value [] = refl
  get-insert new wanted value ((key, held) ∷ others) =
      let ih = get-insert new wanted value others in
      ground (arith, ih, e.eq_law key new, e.eq_law key wanted, e.eq_law new wanted)

  pub get-insert_same :
      (key : K) (value : V) (m : Map K V) → get key (insert key value m) ≡ some value
  get-insert_same key value m = rw (get-insert key key value m, eq-same key) refl

  -- A new key makes the map longer by one.
  pub length-insert_new :
      (new : K) (value : V) (m : Map K V)
      → get new m ≡ none
      → length (insert new value m) ≡ suc (length m)
  unfolding get insert
  length-insert_new new value [] h = refl
  length-insert_new new value ((key, held) ∷ others) h = elim (Bool-cases (e.eq key new)) [
    | inl same ↦ ground (arith, rw same at h)
    | inr other ↦ rw other (ap suc (length-insert_new new value others (rw other at h)))
  ]

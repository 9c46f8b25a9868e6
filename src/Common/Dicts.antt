-- ===== src/Common/Dicts.antt =====
-- A `HashMap` or `DashMap` with string keys, as an association list without a second entry for a key
-- it has. Its laws are in `if` form.
use Prim.Native.String.{String}
use mathlib.Core.Path.{◌≡◌}
use mathlib.Core.Option.{Option, none, some}
use mathlib.Core.List.{List, [], ◌∷◌}
use native.Mathlib.Omega.{arith}
use text.Mathlib.Text.{◌==◌ as same}
use text.Mathlib.TextEquality.{eq_iff}
use rav.Common.Checks.{if◌then◌else◌}

abbrev pub Dict {ℓ} : Type ℓ → Type ℓ
Dict V = List (String × V)

module _ {ℓ} {V : Type ℓ} where
  unfoldable pub lookup : String → Dict V → Option V
  lookup wanted [] = none
  lookup wanted ((key, held) ∷ others) =
      let later = lookup wanted others in if same key wanted then some held else later

  unfoldable pub remove : String → Dict V → Dict V
  remove gone [] = []
  remove gone ((key, held) ∷ others) =
      let later = remove gone others in if same key gone then later else (key, held) ∷ later

  unfoldable pub insert : String → V → Dict V → Dict V
  insert new value [] = (new, value) ∷ []
  insert new value ((key, held) ∷ others) =
      let later = insert new value others in
      if same key new then (key, value) ∷ others else (key, held) ∷ later

  pub lookup-remove :
      (gone wanted : String) (d : Dict V)
      → lookup wanted (remove gone d) ≡ (if same gone wanted then none else lookup wanted d)
  unfolding lookup remove
  lookup-remove gone wanted [] = ground arith
  lookup-remove gone wanted ((key, held) ∷ others) =
      let ih = lookup-remove gone wanted others in
      ground (arith, ih, eq_iff key gone, eq_iff key wanted, eq_iff gone wanted)

  pub lookup-insert :
      (new wanted : String) (value : V) (d : Dict V)
      → lookup wanted (insert new value d)
        ≡ (if same new wanted then some value else lookup wanted d)
  unfolding lookup insert
  lookup-insert new wanted value [] = ground arith
  lookup-insert new wanted value ((key, held) ∷ others) =
      let ih = lookup-insert new wanted value others in
      ground (arith, ih, eq_iff key new, eq_iff key wanted, eq_iff new wanted)

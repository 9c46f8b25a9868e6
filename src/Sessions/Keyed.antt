-- ===== src/Sessions/Keyed.antt =====
-- backend/src/auth/session.rs: a map of sessions has one entry for a token.
use rav.Common.{
  ◌≡◌, refl, inl, inr, String, none, [], ◌∷◌, arith, Bool-cases, str_eq, eq_iff, Dict, lookup,
  insert, remove, lookup-insert, lookup-remove,
}

module _ {ℓ} {V : Type ℓ} where
  abbrev pub IsKeyed : Dict V → Type ℓ
  IsKeyed [] = Unit
  IsKeyed ((key, held) ∷ others) = (lookup key others ≡ none) × IsKeyed others

  pub insert-IsKeyed :
      (new : String) (value : V) (d : Dict V) → IsKeyed d → IsKeyed (insert new value d)
  unfolding insert lookup
  insert-IsKeyed new value [] h = (refl, tt)
  insert-IsKeyed new value ((key, held) ∷ others) h = elim (Bool-cases (str_eq key new)) [
    | inl same ↦ rw same h
    | inr differs ↦ rw differs (
      ground (arith, lookup-insert new key value others, eq_iff key new, eq_iff new key, h.0),
      insert-IsKeyed new value others h.1,
    )
  ]

  pub remove-IsKeyed : (gone : String) (d : Dict V) → IsKeyed d → IsKeyed (remove gone d)
  unfolding remove
  remove-IsKeyed gone [] h = h
  remove-IsKeyed gone ((key, held) ∷ others) h = elim (Bool-cases (str_eq key gone)) [
    | inl same ↦ rw same (remove-IsKeyed gone others h.1)
    | inr differs ↦
        rw differs
          (ground (arith, lookup-remove gone key others, h.0), remove-IsKeyed gone others h.1)
  ]

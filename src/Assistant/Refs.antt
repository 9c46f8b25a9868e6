-- ===== src/Assistant/Refs.antt =====
-- backend/src/assistant/refs.rs: the short references that stand for messages in front of the model.
use rav.Common.{
  ℕ, ◌+◌, ◌≤◌, ◌≡◌, refl, sym, ap, ◌∙◌, inl, inr, Option, none, some, [], ◌∷◌, arith, if◌then◌else◌,
  Bool-cases, Option-cases, length, Text, text_eq, text_eq_iff, decimal, decimal-injective,
}
use rav.Common.Maps.{Map, get, insert, eq-same, get-insert, length-insert_new}
use rav.Assistant.{MessageLoc, text_Eq, loc_Eq, loc_eq_iff}

pub record RefTable : Type 0 where
  pub by_ref : Map Text MessageLoc
  pub by_loc : Map MessageLoc Text

abbrev pub empty_table : RefTable
empty_table = record { by_ref = []; by_loc = [] }

-- `format!("m{}", n)`
abbrev pub numbered : ℕ → Text
numbered n = b'm' ∷ decimal n

abbrev minted : Option Text → MessageLoc → RefTable → Text × RefTable
minted (some r) loc t = (r, t)
minted none loc t =
    let r = numbered (length t.by_ref + 1) in
    (r, record t { by_ref = insert r loc t.by_ref; by_loc = insert loc r t.by_loc })

unfoldable pub mint : MessageLoc → RefTable → Text × RefTable
mint loc t = minted (get loc t.by_loc) loc t

unfoldable pub resolve : RefTable → Text → Option MessageLoc
resolve t r = get r t.by_ref

-- Both maps say the same, and a reference is a number up to the number of references.
pub record IsBijective (t : RefTable) : Type 0 where
  pub found : (r : Text) (loc : MessageLoc) → get r t.by_ref ≡ some loc → get loc t.by_loc ≡ some r
  pub named : (loc : MessageLoc) (r : Text) → get loc t.by_loc ≡ some r → get r t.by_ref ≡ some loc
  pub counted :
      (r : Text) (loc : MessageLoc)
      → get r t.by_ref ≡ some loc
      → (n : ℕ) × (n ≤ length t.by_ref) × (r ≡ numbered n)

pub empty-IsBijective : IsBijective empty_table
unfolding get
empty-IsBijective = record { found = λ r loc e. cc; named = λ loc r e. cc; counted = λ r loc e. cc }

tail_of : Text → Text
tail_of [] = []
tail_of (c ∷ s) = s

numbered-injective : (m n : ℕ) → numbered m ≡ numbered n → m ≡ n
unfolding tail_of
numbered-injective m n e = decimal-injective m n (ap tail_of e)

-- The next reference is new.
next_is_new : (t : RefTable) → IsBijective t → get (numbered (length t.by_ref + 1)) t.by_ref ≡ none
next_is_new t w = elim (Option-cases (get (numbered (length t.by_ref + 1)) t.by_ref)) [
  | inl e ↦ e
  | inr (loc, e) ↦
      let (n, small, same) = w.counted _ loc e in
      let equal = numbered-injective (length t.by_ref + 1) n same in ground (arith, equal, small)
]

minted-IsBijective :
    (loc : MessageLoc) (t : RefTable)
    → IsBijective t
    → get loc t.by_loc ≡ none
    → IsBijective (minted none loc t).1
minted-IsBijective loc t w new = record {
  found = λ r l e.
      let by = get-insert (numbered (length t.by_ref + 1)) r loc t.by_ref in
      let back = get-insert loc l (numbered (length t.by_ref + 1)) t.by_loc in
      let same_r = text_eq_iff (numbered (length t.by_ref + 1)) r in
      ground (arith, new, e, by, back, same_r, loc_eq_iff loc l, w.found r l);
  named = λ l r e.
      let by = get-insert (numbered (length t.by_ref + 1)) r loc t.by_ref in
      let back = get-insert loc l (numbered (length t.by_ref + 1)) t.by_loc in
      let same_r = text_eq_iff (numbered (length t.by_ref + 1)) r in
      let fresh = next_is_new t w in
      ground (arith, fresh, e, by, back, same_r, loc_eq_iff loc l, w.named l r);
  counted = λ r l e.
      let by = get-insert (numbered (length t.by_ref + 1)) r loc t.by_ref in
      let longer =
        length-insert_new (numbered (length t.by_ref + 1)) loc t.by_ref (next_is_new t w) in
      elim (Bool-cases (text_eq (numbered (length t.by_ref + 1)) r)) [
        | inl same ↦ (
          length t.by_ref + 1,
          omega (arith, longer),
          sym ((text_eq_iff (numbered (length t.by_ref + 1)) r).0 same),
        )
        | inr other ↦
            let (n, small, is_n) = w.counted r l (sym (rw other at by) ∙ e) in
            (n, omega (arith, longer, small), is_n)
      ];
}

pub mint-IsBijective :
    (loc : MessageLoc) (t : RefTable) → IsBijective t → IsBijective (mint loc t).1
unfolding mint
mint-IsBijective loc t w = elim (Option-cases (get loc t.by_loc)) [
  | inl new ↦ rw new (minted-IsBijective loc t w new)
  | inr (r, e) ↦ rw e w
]

-- In a table whose maps agree, a minted reference resolves to its message, and every other reference
-- resolves as before.
pub resolve-mint :
    (loc : MessageLoc) (t : RefTable) (r : Text)
    → IsBijective t
    → resolve (mint loc t).1 r ≡ (if text_eq (mint loc t).0 r then some loc else resolve t r)
unfolding mint resolve
resolve-mint loc t r w = elim (Option-cases (get loc t.by_loc)) [
  | inl new ↦ rw new (get-insert (numbered (length t.by_ref + 1)) r loc t.by_ref)
  | inr (old, e) ↦ rw e (elim (Bool-cases (text_eq old r)) [
    | inl same ↦ rw same (rw (sym ((text_eq_iff old r).0 same)) (w.named loc old e))
    | inr other ↦ rw other refl
  ])
]

-- What a reference stands for stays when another message is minted.
pub resolve-kept :
    (loc : MessageLoc) (t : RefTable) (r : Text) (known : MessageLoc)
    → IsBijective t
    → resolve t r ≡ some known
    → resolve (mint loc t).1 r ≡ some known
unfolding mint resolve
resolve-kept loc t r known w h = elim (Option-cases (get loc t.by_loc)) [
  | inl new ↦
      let by = get-insert (numbered (length t.by_ref + 1)) r loc t.by_ref in
      let same_r = text_eq_iff (numbered (length t.by_ref + 1)) r in
      let fresh = next_is_new t w in rw new (ground (arith, by, same_r, fresh, h))
  | inr (old, e) ↦ rw e h
]

pub resolve-minted :
    (loc : MessageLoc) (t : RefTable)
    → IsBijective t
    → resolve (mint loc t).1 (mint loc t).0 ≡ some loc
resolve-minted loc t w = rw (resolve-mint loc t (mint loc t).0 w, eq-same (mint loc t).0) refl

-- ===== src/Common/Members.antt =====
-- Membership in a list, with its place, and how the shared list functions treat it.
use Prim.Native.Nat.{ℕ}
use mathlib.Core.Path.{◌≡◌, refl, subst, sym}
use mathlib.Core.Bool.{Bool, true}
use mathlib.Core.Logic.{◌⊎◌, inl, inr}
use mathlib.Core.List.{List, [], ◌∷◌, ◌++◌, Memᴰ}
use native.Mathlib.Omega.{arith}
use rav.Common.Checks.{Bool-cases, leb}
use rav.Common.Lists.{All, any, keep}
use rav.Common.Sorting.{insert_by, sort_by}

module _ {ℓ} {A : Type ℓ} where
  pub All-mem {κ} : (P : A → Type κ) (xs : List A) (a : A) → All P xs → Memᴰ a xs → P a
  All-mem P [] a h m = elim m [ ]
  All-mem P (x ∷ xs) a h (Memᴰ.head e) = subst P (sym e) h.0
  All-mem P (x ∷ xs) a h (Memᴰ.tail m) = All-mem P xs a h.1 m

  pub All-of_mem {κ} : (P : A → Type κ) (xs : List A) → ((a : A) → Memᴰ a xs → P a) → All P xs
  All-of_mem P [] h = tt
  All-of_mem P (x ∷ xs) h = (h x (Memᴰ.head refl), All-of_mem P xs (λ a m. h a (Memᴰ.tail m)))

  pub mem-of_cons : {a x : A} {xs : List A} → Memᴰ a (x ∷ xs) → (a ≡ x) ⊎ Memᴰ a xs
  mem-of_cons (Memᴰ.head e) = inl e
  mem-of_cons (Memᴰ.tail m) = inr m

  pub mem-of_keep :
      (p : A → Bool) (a : A) (xs : List A) → Memᴰ a (keep p xs) → Memᴰ a xs × (p a ≡ true)
  mem-of_keep p a [] m = elim m [ ]
  mem-of_keep p a (x ∷ xs) m = elim (Bool-cases (p x)) [
    | inl e ↦ elim (mem-of_cons (rw e at m)) [
      | inl same ↦ (Memᴰ.head same, rw same e)
      | inr n ↦ let (n', h) = mem-of_keep p a xs n in (Memᴰ.tail n', h)
    ]
    | inr e ↦ let (n, h) = mem-of_keep p a xs (rw e at m) in (Memᴰ.tail n, h)
  ]

  pub mem-keep : (p : A → Bool) (a : A) (xs : List A) → Memᴰ a xs → p a ≡ true → Memᴰ a (keep p xs)
  mem-keep p a [] m h = elim m [ ]
  mem-keep p a (x ∷ xs) (Memᴰ.head e) h = rw (rw e at h) (Memᴰ.head e)
  mem-keep p a (x ∷ xs) (Memᴰ.tail m) h = elim (Bool-cases (p x)) [
    | inl e ↦ rw e (Memᴰ.tail (mem-keep p a xs m h))
    | inr e ↦ rw e (mem-keep p a xs m h)
  ]

  mem-of_insert_by :
      (key : A → ℕ) (b a : A) (xs : List A) → Memᴰ a (insert_by key b xs) → Memᴰ a (b ∷ xs)
  unfolding insert_by
  mem-of_insert_by key b a [] m = m
  mem-of_insert_by key b a (x ∷ xs) m = elim (Bool-cases (leb (key b) (key x))) [
    | inl e ↦ rw e at m
    | inr e ↦ elim (mem-of_cons (rw e at m)) [
      | inl same ↦ Memᴰ.tail (Memᴰ.head same)
      | inr n ↦ elim (mem-of_cons (mem-of_insert_by key b a xs n)) [
        | inl same ↦ Memᴰ.head same
        | inr k ↦ Memᴰ.tail (Memᴰ.tail k)
      ]
    ]
  ]

  mem-insert_by :
      (key : A → ℕ) (b a : A) (xs : List A) → Memᴰ a (b ∷ xs) → Memᴰ a (insert_by key b xs)
  unfolding insert_by
  mem-insert_by key b a [] m = m
  mem-insert_by key b a (x ∷ xs) m = elim (Bool-cases (leb (key b) (key x))) [
    | inl e ↦ rw e m
    | inr e ↦ rw e (elim (mem-of_cons m) [
      | inl same ↦ Memᴰ.tail (mem-insert_by key b a xs (Memᴰ.head same))
      | inr n ↦ elim (mem-of_cons n) [
        | inl same ↦ Memᴰ.head same
        | inr k ↦ Memᴰ.tail (mem-insert_by key b a xs (Memᴰ.tail k))
      ]
    ])
  ]

  pub mem-of_sort_by : (key : A → ℕ) (a : A) (xs : List A) → Memᴰ a (sort_by key xs) → Memᴰ a xs
  unfolding sort_by
  mem-of_sort_by key a [] m = elim m [ ]
  mem-of_sort_by key a (x ∷ xs) m = elim (mem-of_cons (mem-of_insert_by key x a _ m)) [
    | inl same ↦ Memᴰ.head same
    | inr n ↦ Memᴰ.tail (mem-of_sort_by key a xs n)
  ]

  pub mem-sort_by : (key : A → ℕ) (a : A) (xs : List A) → Memᴰ a xs → Memᴰ a (sort_by key xs)
  unfolding sort_by
  mem-sort_by key a [] m = elim m [ ]
  mem-sort_by key a (x ∷ xs) (Memᴰ.head e) = mem-insert_by key x a _ (Memᴰ.head e)
  mem-sort_by key a (x ∷ xs) (Memᴰ.tail m) =
      mem-insert_by key x a _ (Memᴰ.tail (mem-sort_by key a xs m))

  pub any-true : (p : A → Bool) (xs : List A) (a : A) → Memᴰ a xs → p a ≡ true → any p xs ≡ true
  any-true p [] a m h = elim m [ ]
  any-true p (x ∷ xs) a (Memᴰ.head e) h = rw (rw e at h) refl
  any-true p (x ∷ xs) a (Memᴰ.tail m) h = ground (arith, any-true p xs a m h)

  pub any-mem : (p : A → Bool) (xs : List A) → any p xs ≡ true → (a : A) × Memᴰ a xs × (p a ≡ true)
  any-mem p [] h = cc
  any-mem p (x ∷ xs) h = elim (Bool-cases (p x)) [
    | inl e ↦ (x, Memᴰ.head refl, e)
    | inr e ↦ let (a, m, k) = any-mem p xs (rw e at h) in (a, Memᴰ.tail m, k)
  ]

  pub mem-append : (a : A) (xs ys : List A) → Memᴰ a xs ⊎ Memᴰ a ys → Memᴰ a (xs ++ ys)
  mem-append a [] ys (inl m) = elim m [ ]
  mem-append a [] ys (inr m) = m
  mem-append a (x ∷ xs) ys (inl (Memᴰ.head e)) = Memᴰ.head e
  mem-append a (x ∷ xs) ys (inl (Memᴰ.tail m)) = Memᴰ.tail (mem-append a xs ys (inl m))
  mem-append a (x ∷ xs) ys (inr m) = Memᴰ.tail (mem-append a xs ys (inr m))

  pub mem-of_append : (a : A) (xs ys : List A) → Memᴰ a (xs ++ ys) → Memᴰ a xs ⊎ Memᴰ a ys
  mem-of_append a [] ys m = inr m
  mem-of_append a (x ∷ xs) ys m = elim (mem-of_cons m) [
    | inl same ↦ inl (Memᴰ.head same)
    | inr n ↦ elim (mem-of_append a xs ys n) [ inl k ↦ inl (Memᴰ.tail k) | inr k ↦ inr k ]
  ]

pub All-map {ℓ κ μ} :
    {A : Type ℓ} (P : A → Type κ) (Q : A → Type μ) (xs : List A)
    → ((a : A) → P a → Q a)
    → All P xs
    → All Q xs
All-map P Q [] h all = tt
All-map P Q (x ∷ xs) h all = (h x all.0, All-map P Q xs h all.1)

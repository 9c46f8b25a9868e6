-- ===== src/Threads/Ends.antt =====
-- backend/src/db/messages.rs: the rounds of `get_full_thread` come to an end.
use rav.Common.{
  ℕ, zero, suc, ◌<◌, ◌≡◌, refl, inl, inr, ◌∙◌, ap, Bool, true, false, not, ◌&&◌, some, List, [],
  ◌∷◌, arith, Bool-cases, length, keep, ◌==◌, Text, text_eq, text_eq_iff, Memᴰ,
}
use rav.Threads.{CachedMessage, Found, has_id, query_all, to_query, search_ids}
use rav.Threads.Ids.{Within, unseen, unseen_lt, NamesOf, query_all-processed, query_all-Within}

pub has_id-keep :
    (k : Text) (xs done : List Text)
    → has_id k (keep (λ id. not (has_id id done)) xs) ≡ has_id k xs && not (has_id k done)
has_id-keep k [] done = refl
has_id-keep k (x ∷ xs) done = elim (Bool-cases (text_eq x k)) [
  | inl same ↦
      let is_k = (text_eq_iff x k).0 same in
      let alike = ap (λ y. has_id y done) is_k in ground (arith, has_id-keep k xs done, same, alike)
  | inr other ↦ ground (arith, has_id-keep k xs done, other)
]

some_id : (xs : List Text) → (length xs == 0) ≡ false → (id : Text) × (has_id id xs ≡ true)
some_id [] h = cc
some_id (x ∷ xs) h = (x, ground (arith, text_eq_iff x x))

module _ (split_whitespace : Text → List Text) (like : Text → Text → Bool)
    (table : List CachedMessage) where
  -- A round that queries anything leaves fewer ids unseen.
  round_lt :
      (all : List Text) (s : Found)
      → Within s.known_ids all
      → (length (to_query split_whitespace like s) == 0) ≡ false
      → unseen all
          (query_all split_whitespace like table (to_query split_whitespace like s) s).processed_ids
        < unseen all s.processed_ids
  round_lt all s w h =
      let queried = to_query split_whitespace like s in
      let after = (query_all split_whitespace like table queried s).processed_ids in
      let (id, there) = some_id queried h in
      let split = has_id-keep id s.known_ids s.processed_ids in
      let known : has_id id s.known_ids ≡ true = ground (arith, split, there) in
      let new : has_id id s.processed_ids ≡ false = ground (arith, split, there) in
      unseen_lt all s.processed_ids after id
        (λ k e. query_all-processed split_whitespace like table k queried s ∙ rw e refl)
        (w id known) new
        (query_all-processed split_whitespace like table id queried s ∙ ground (arith, there))

  -- From ids that are all of a list, which also holds the ids that the messages name, more rounds than the
  -- list has unseen ids are enough.
  pub search_ids-ends :
      (all : List Text) (rounds : ℕ) (s : Found)
      → ((m : CachedMessage) → Memᴰ m table → NamesOf split_whitespace like table all m)
      → Within s.known_ids all
      → unseen all s.processed_ids < rounds
      → (end : Found) × (search_ids split_whitespace like table rounds s ≡ some end)
  unfolding search_ids
  search_ids-ends all zero s names w h = let bad : true ≡ false = ground (arith, h) in cc
  search_ids-ends all (suc rounds) s names w h =
      elim (Bool-cases (length (to_query split_whitespace like s) == 0)) [
        | inl e ↦ rw e (s, refl)
        | inr e ↦ rw e (
            search_ids-ends all rounds
              (query_all split_whitespace like table (to_query split_whitespace like s) s) names
              (query_all-Within split_whitespace like table all (to_query split_whitespace like s) s
                names w)
              (omega (arith, h, round_lt all s w e)))
      ]

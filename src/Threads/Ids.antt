-- ===== src/Threads/Ids.antt =====
-- backend/src/db/messages.rs: the sets of ids that `get_full_thread` keeps, and what a round adds to them.
use rav.Common.{
  ℕ, ◌≤◌, ◌<◌, ◌≡◌, refl, sym, subst, inl, inr, ◌∙◌, ap, Bool, true, false, not, ◌||◌, List, [],
  ◌∷◌, ◌++◌, arith, Bool-cases, length, keep, Text, text_eq, text_eq_iff, Memᴰ, mem-of_keep,
  mem-of_sort_by,
}
use rav.Threads.{
  CachedMessage, Found, has_id, add_id, add_ids, ids_of, take_found, query_one, query_all,
  get_thread_messages,
}

-- Every id of the first is one of the second.
abbrev pub Within : List Text → List Text → Type 0
Within ids all = (k : Text) → has_id k ids ≡ true → has_id k all ≡ true

pub has_id-append :
    (k : Text) (xs ys : List Text) → has_id k (xs ++ ys) ≡ has_id k xs || has_id k ys
has_id-append k [] ys = refl
has_id-append k (x ∷ xs) ys = ground (arith, has_id-append k xs ys)

pub has_id-add_id :
    (k id : Text) (ids : List Text) → has_id k (add_id id ids) ≡ has_id k ids || text_eq id k
has_id-add_id k id ids = elim (Bool-cases (has_id id ids)) [
  | inl e ↦ elim (Bool-cases (text_eq id k)) [
    | inl same ↦
        let here = subst (λ x. has_id x ids ≡ true) ((text_eq_iff id k).0 same) e in
        ground (arith, e, here, same)
    | inr other ↦ ground (arith, e, other)
  ]
  | inr e ↦ rw e (has_id-append k ids (id ∷ []) ∙ ground arith)
]

pub has_id-add_ids :
    (k : Text) (more ids : List Text) → has_id k (add_ids more ids) ≡ has_id k ids || has_id k more
unfolding add_ids
has_id-add_ids k [] ids = ground arith
has_id-add_ids k (id ∷ more) ids =
    ground (arith, has_id-add_ids k more (add_id id ids), has_id-add_id k id ids)

-- The ids of a list that are not in another.
abbrev pub unseen : List Text → List Text → ℕ
unseen all ids = length (keep (λ u. not (has_id u ids)) all)

pub unseen_le : (all old new : List Text) → Within old new → unseen all new ≤ unseen all old
unseen_le [] old new w = omega arith
unseen_le (u ∷ all) old new w = ground (arith, unseen_le all old new w, w u)

pub unseen_lt :
    (all old new : List Text) (id : Text)
    → Within old new
    → has_id id all ≡ true
    → has_id id old ≡ false
    → has_id id new ≡ true
    → unseen all new < unseen all old
unseen_lt [] old new id w h before after = cc
unseen_lt (u ∷ all) old new id w h before after = elim (Bool-cases (text_eq u id)) [
  | inl same ↦
      let is_id = (text_eq_iff u id).0 same in
      let unknown = subst (λ x. has_id x old ≡ false) (sym is_id) before in
      let known = subst (λ x. has_id x new ≡ true) (sym is_id) after in
      rw (unknown, known) (omega (arith, unseen_le all old new w))
  | inr other ↦
      let later = unseen_lt all old new id w (ground (arith, h, other)) before after in
      ground (arith, later, w u)
]

module _ (split_whitespace : Text → List Text) (like : Text → Text → Bool)
    (table : List CachedMessage) where
  pub take_found-processed :
      (ms : List CachedMessage) (s : Found)
      → (take_found split_whitespace like ms s).processed_ids ≡ s.processed_ids
  unfolding take_found
  take_found-processed [] s = refl
  take_found-processed (m ∷ ms) s = take_found-processed ms _

  -- A round processes what it queries.
  pub query_all-processed :
      (k : Text) (ids : List Text) (s : Found)
      → has_id k (query_all split_whitespace like table ids s).processed_ids
        ≡ has_id k s.processed_ids || has_id k ids
  unfolding query_all
  query_all-processed k [] s = ground arith
  query_all-processed k (id ∷ ids) s =
      let next = query_one split_whitespace like table id s in
      let one = take_found-processed (get_thread_messages split_whitespace like table id) _ in
      query_all-processed k ids next
      ∙ ap (λ p. has_id k p || has_id k ids) one
      ∙ ap (λ b. b || has_id k ids) (has_id-add_id k id s.processed_ids)
      ∙ ground arith

  -- What names no id but those of a list.
  abbrev pub NamesOf : List Text → CachedMessage → Type 0
  NamesOf all m = Within (ids_of split_whitespace like m) all

  take_found-Within :
      (all : List Text) (ms : List CachedMessage) (s : Found)
      → ((m : CachedMessage) → Memᴰ m ms → NamesOf all m)
      → Within s.known_ids all
      → Within (take_found split_whitespace like ms s).known_ids all
  unfolding take_found
  take_found-Within all [] s h w = w
  take_found-Within all (m ∷ ms) s h w =
      take_found-Within all ms _ (λ n at. h n (Memᴰ.tail at))
        (λ k e. elim (Bool-cases (has_id k s.known_ids)) [
          | inl old ↦ w k old
          | inr new ↦
              let split = has_id-add_ids k (ids_of split_whitespace like m) s.known_ids in
              h m (Memᴰ.head refl) k (ground (arith, e, split, new))
        ])

  pub get_thread_messages-mem :
      (id : Text) (m : CachedMessage)
      → Memᴰ m (get_thread_messages split_whitespace like table id)
      → Memᴰ m table
  unfolding get_thread_messages
  get_thread_messages-mem id m at =
      (mem-of_keep _ m table (mem-of_sort_by (λ n. n.date_epoch) m _ at)).0

  -- A round keeps to the ids that the messages of the table name.
  pub query_all-Within :
      (all ids : List Text) (s : Found)
      → ((m : CachedMessage) → Memᴰ m table → NamesOf all m)
      → Within s.known_ids all
      → Within (query_all split_whitespace like table ids s).known_ids all
  unfolding query_all
  query_all-Within all [] s h w = w
  query_all-Within all (id ∷ ids) s h w =
      query_all-Within all ids (query_one split_whitespace like table id s) h (
        take_found-Within all (get_thread_messages split_whitespace like table id) _
          (λ m at. h m (get_thread_messages-mem id m at)) w)

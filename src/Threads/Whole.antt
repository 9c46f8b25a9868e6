-- ===== src/Threads/Whole.antt =====
-- backend/src/db/messages.rs: the whole of `get_full_thread`, with rounds enough for the table.
use rav.Common.{
  ℕ, ◌+◌, ◌≡◌, refl, subst, inl, inr, ◌∙◌, ap, Bool, true, not, ◌||◌, Option, some, List, [], ◌∷◌,
  ◌++◌, arith, Bool-cases, length, length-keep_le, any, Text, text_eq_iff, Memᴰ, mem-of_cons,
  mem-of_sort_by, mem-sort_by, any-true, any-mem, sort_by,
}
use rav.Threads.{
  CachedMessage, has_id, ids_of, get_thread_messages, retain_first, same_place, get_full_thread,
  first_found, sorted, seeds,
}
use rav.Threads.Ids.{Within, has_id-append}
use rav.Threads.Ends.{search_ids-ends}
use rav.Threads.Closed.{search_ids-IsSound}

mem-of_retain_first :
    (seen ms : List CachedMessage) (m : CachedMessage) → Memᴰ m (retain_first seen ms) → Memᴰ m ms
unfolding retain_first
mem-of_retain_first seen [] m at = elim at [ ]
mem-of_retain_first seen (n ∷ ms) m at = elim (Bool-cases (any (same_place n) seen)) [
  | inl old ↦ Memᴰ.tail (mem-of_retain_first seen ms m (rw old at at))
  | inr new ↦ elim (mem-of_cons (rw new at at)) [
    | inl same ↦ Memᴰ.head same
    | inr k ↦ Memᴰ.tail (mem-of_retain_first (n ∷ seen) ms m k)
  ]
]

any-same_place :
    (m n : CachedMessage) (ms : List CachedMessage)
    → same_place m n ≡ true
    → any (same_place m) ms ≡ any (same_place n) ms
any-same_place m n [] h = refl
any-same_place m n (x ∷ ms) h = ground (
  arith,
  any-same_place m n ms h,
  h,
  text_eq_iff m.folder n.folder,
  text_eq_iff m.folder x.folder,
  text_eq_iff n.folder x.folder,
)

own_place : (m : CachedMessage) → same_place m m ≡ true
own_place m = ground (arith, text_eq_iff m.folder m.folder)

any-retain_first :
    (seen ms : List CachedMessage) (m : CachedMessage)
    → any (same_place m) (retain_first seen ms) || any (same_place m) seen
      ≡ any (same_place m) ms || any (same_place m) seen
unfolding retain_first
any-retain_first seen [] m = refl
any-retain_first seen (n ∷ ms) m = elim (Bool-cases (any (same_place n) seen)) [
  | inl old ↦ elim (Bool-cases (same_place m n)) [
    | inl same ↦
        rw old (ground (arith, any-retain_first seen ms m, any-same_place m n seen same, old, same))
    | inr other ↦ rw old (ground (arith, any-retain_first seen ms m, other))
  ]
  | inr new ↦ rw new (ground (arith, any-retain_first (n ∷ seen) ms m))
]

module _ (split_whitespace : Text → List Text) (like : Text → Text → Bool)
    (table : List CachedMessage) where
  abbrev names : List CachedMessage → List Text
  names [] = []
  names (m ∷ ms) = ids_of split_whitespace like m ++ names ms

  names-Within :
      (ms : List CachedMessage) (m : CachedMessage)
      → Memᴰ m ms
      → Within (ids_of split_whitespace like m) (names ms)
  names-Within [] m at k e = elim at [ ]
  names-Within (n ∷ ms) m (Memᴰ.head same) k e =
      let named = subst (λ x. has_id k (ids_of split_whitespace like x) ≡ true) same e in
      has_id-append k (ids_of split_whitespace like n) (names ms) ∙ rw named refl
  names-Within (n ∷ ms) m (Memᴰ.tail at) k e =
      has_id-append k (ids_of split_whitespace like n) (names ms)
      ∙ ground (arith, names-Within ms m at k e)

  -- One more than the ids that the request and the messages name.
  abbrev pub enough_rounds : Text → Option Text → ℕ
  enough_rounds message_id references =
      length (seeds split_whitespace like message_id references ++ names table) + 1

  -- A thread with the ids it goes by: it has every message that one of the ids finds, and each of its
  -- messages is of the table and names only such ids.
  pub record IsThread (ids : List Text) (thread : List CachedMessage) : Type 0 where
    pub whole :
        (id : Text) (m : CachedMessage)
        → has_id id ids ≡ true
        → Memᴰ m (get_thread_messages split_whitespace like table id)
        → any (same_place m) thread ≡ true
    pub closed : (m : CachedMessage) → Memᴰ m thread → Within (ids_of split_whitespace like m) ids
    pub stored : (m : CachedMessage) → Memᴰ m thread → Memᴰ m table

  -- `get_full_thread` ends, in rounds at most one more than the ids that its arguments and the messages
  -- name. What it returns are messages of the table, and there are ids, the ones it was asked for among them,
  -- for each of which it has every message that the id finds, and which are all that its messages name.
  pub get_full_thread-IsThread :
      (message_id : Text) (references : Option Text)
      → (thread : List CachedMessage) × (ids : List Text) × (get_full_thread split_whitespace like
            table
            (enough_rounds message_id references)
            message_id
            references
          ≡ some thread)
        × Within (seeds split_whitespace like message_id references) ids
        × IsThread ids thread
  unfolding get_full_thread
  get_full_thread-IsThread message_id references =
      let first = first_found split_whitespace like message_id references in
      let all = seeds split_whitespace like message_id references ++ names table in
      let (end, e) =
        search_ids-ends split_whitespace like table all (length all + 1) first
          (λ m at k x.
            has_id-append k (seeds split_whitespace like message_id references) (names table)
            ∙ ground (arith, names-Within table m at k x))
          (λ k x.
            has_id-append k (seeds split_whitespace like message_id references) (names table)
            ∙ rw x refl)
          (omega (arith, length-keep_le (λ u. not (has_id u [])) all)) in
      let (sound, grown, done) =
        search_ids-IsSound split_whitespace like table (length all + 1) first end
          (record {
            taken = λ id m h at. cc;
            named = λ m at. elim at [ ];
            stored = λ m at. elim at [ ];
          })
          e in
      (
        sort_by (λ m. m.date_epoch) (retain_first [] end.all_messages),
        end.known_ids,
        ap (sorted split_whitespace like) e,
        grown,
        record {
          whole = λ id m h at.
              let there =
                any-true (same_place m) end.all_messages m (sound.taken id m (done id h) at)
                  (own_place m) in
              let (x, k, same) =
                any-mem (same_place m) (retain_first [] end.all_messages)
                  (ground (arith, any-retain_first [] end.all_messages m, there)) in
              any-true (same_place m) _ x (mem-sort_by (λ n. n.date_epoch) x _ k) same;
          closed = λ m at. sound.named m (
              mem-of_retain_first [] end.all_messages m
                (mem-of_sort_by (λ n. n.date_epoch) m _ at));
          stored = λ m at. sound.stored m (
              mem-of_retain_first [] end.all_messages m
                (mem-of_sort_by (λ n. n.date_epoch) m _ at));
        },
      )

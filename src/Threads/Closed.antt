-- ===== src/Threads/Closed.antt =====
-- backend/src/db/messages.rs: what `get_full_thread` returns.
use rav.Common.{
  ℕ, zero, suc, ◌≡◌, refl, sym, subst, ◌⊎◌, inl, inr, ◌∙◌, ap, Bool, true, false, some, List, [],
  ◌∷◌, arith, Bool-cases, length, ◌==◌, Text, text_eq, text_eq_iff, Memᴰ, mem-append, mem-of_append,
  mem-of_cons,
}
use rav.Threads.{
  CachedMessage, Found, has_id, add_id, ids_of, take_found, query_one, query_all, to_query,
  search_ids, get_thread_messages,
}
use rav.Threads.Ids.{
  Within, has_id-add_ids, has_id-add_id, take_found-processed, get_thread_messages-mem,
}
use rav.Threads.Ends.{has_id-keep}

some-injective : (a b : Found) → some a ≡ some b → a ≡ b
some-injective a b h = cc

has_id-empty : (k : Text) (ids : List Text) → (length ids == 0) ≡ true → has_id k ids ≡ false
has_id-empty k [] h = refl
has_id-empty k (id ∷ ids) h = ground (arith, h)

module _ (split_whitespace : Text → List Text) (like : Text → Text → Bool)
    (table : List CachedMessage) where
  -- What was processed was taken over, what a message names is known, and all of them are of the table.
  pub record IsSound (s : Found) : Type 0 where
    pub taken :
        (id : Text) (m : CachedMessage)
        → has_id id s.processed_ids ≡ true
        → Memᴰ m (get_thread_messages split_whitespace like table id)
        → Memᴰ m s.all_messages
    pub named :
        (m : CachedMessage)
        → Memᴰ m s.all_messages
        → Within (ids_of split_whitespace like m) s.known_ids
    pub stored : (m : CachedMessage) → Memᴰ m s.all_messages → Memᴰ m table

  take_found-only :
      (ms : List CachedMessage) (s : Found) (m : CachedMessage)
      → Memᴰ m (take_found split_whitespace like ms s).all_messages
      → Memᴰ m s.all_messages ⊎ Memᴰ m ms
  unfolding take_found
  take_found-only [] s m at = inl at
  take_found-only (n ∷ ms) s m at = elim (take_found-only ms _ m at) [
    | inl k ↦ elim (mem-of_append m s.all_messages (n ∷ []) k) [
      | inl old ↦ inl old
      | inr new ↦ elim (mem-of_cons new) [
        | inl same ↦ inr (Memᴰ.head same)
        | inr nowhere ↦ elim nowhere [ ]
      ]
    ]
    | inr k ↦ inr (Memᴰ.tail k)
  ]

  take_found-kept :
      (ms : List CachedMessage) (s : Found) (m : CachedMessage)
      → Memᴰ m s.all_messages ⊎ Memᴰ m ms
      → Memᴰ m (take_found split_whitespace like ms s).all_messages
  unfolding take_found
  take_found-kept [] s m (inl at) = at
  take_found-kept [] s m (inr at) = elim at [ ]
  take_found-kept (n ∷ ms) s m (inl at) =
      take_found-kept ms _ m (inl (mem-append m s.all_messages (n ∷ []) (inl at)))
  take_found-kept (n ∷ ms) s m (inr (Memᴰ.head e)) =
      take_found-kept ms _ m (inl (mem-append m s.all_messages (n ∷ []) (inr (Memᴰ.head e))))
  take_found-kept (n ∷ ms) s m (inr (Memᴰ.tail at)) = take_found-kept ms _ m (inr at)

  take_found-known :
      (ms : List CachedMessage) (s : Found)
      → Within s.known_ids (take_found split_whitespace like ms s).known_ids
  unfolding take_found
  take_found-known [] s k e = e
  take_found-known (m ∷ ms) s k e =
      take_found-known ms _ k
        (has_id-add_ids k (ids_of split_whitespace like m) s.known_ids ∙ rw e refl)

  take_found-named :
      (ms : List CachedMessage) (s : Found)
      → ((m : CachedMessage)
          → Memᴰ m s.all_messages
          → Within (ids_of split_whitespace like m) s.known_ids)
      → (m : CachedMessage) → Memᴰ m (take_found split_whitespace like ms s).all_messages
      → Within (ids_of split_whitespace like m) (take_found split_whitespace like ms s).known_ids
  unfolding take_found
  take_found-named [] s h = h
  take_found-named (n ∷ ms) s h = take_found-named ms _ (λ m at k e.
      let split = has_id-add_ids k (ids_of split_whitespace like n) s.known_ids in
      elim (mem-of_append m s.all_messages (n ∷ []) at) [
        | inl old ↦ split ∙ rw (h m old k e) refl
        | inr new ↦ elim (mem-of_cons new) [
          | inl same ↦
              let named = subst (λ x. has_id k (ids_of split_whitespace like x) ≡ true) same e in
              split ∙ ground (arith, named)
          | inr nowhere ↦ elim nowhere [ ]
        ]
      ])

  query_one-IsSound :
      (id : Text) (s : Found) → IsSound s → IsSound (query_one split_whitespace like table id s)
  query_one-IsSound id s w =
      let found = get_thread_messages split_whitespace like table id in
      record {
        taken = λ k m e at.
            let start = record s { processed_ids = add_id id s.processed_ids } in
            let done =
              ap (has_id k) (take_found-processed split_whitespace like table found start) in
            let split = has_id-add_id k id s.processed_ids in
            elim (Bool-cases (has_id k s.processed_ids)) [
              | inl old ↦ take_found-kept found start m (inl (w.taken k m old at))
              | inr new ↦
                  let same : text_eq id k ≡ true = ground (arith, sym done ∙ e, split, new) in
                  take_found-kept found start m (
                    inr (
                      subst (λ x. Memᴰ m (get_thread_messages split_whitespace like table x))
                        (sym ((text_eq_iff id k).0 same)) at))
            ];
        named = take_found-named found _ w.named;
        stored = λ m at. elim (take_found-only found _ m at) [
          | inl old ↦ w.stored m old
          | inr new ↦ get_thread_messages-mem split_whitespace like table id m new
        ];
      }

  query_all-IsSound :
      (ids : List Text) (s : Found)
      → IsSound s
      → IsSound (query_all split_whitespace like table ids s)
  unfolding query_all
  query_all-IsSound [] s w = w
  query_all-IsSound (id ∷ ids) s w = query_all-IsSound ids _ (query_one-IsSound id s w)

  query_all-known :
      (ids : List Text) (s : Found)
      → Within s.known_ids (query_all split_whitespace like table ids s).known_ids
  unfolding query_all
  query_all-known [] s k e = e
  query_all-known (id ∷ ids) s k e =
      query_all-known ids _ k
        (take_found-known (get_thread_messages split_whitespace like table id) _ k e)

  all_processed :
      (s : Found)
      → (length (to_query split_whitespace like s) == 0) ≡ true
      → Within s.known_ids s.processed_ids
  all_processed s e k known =
      let split = has_id-keep k s.known_ids s.processed_ids in
      let none_left = has_id-empty k (to_query split_whitespace like s) e in
      ground (arith, split, none_left, known)

  -- At the end every known id was processed.
  pub search_ids-IsSound :
      (rounds : ℕ) (s end : Found)
      → IsSound s
      → search_ids split_whitespace like table rounds s ≡ some end
      → IsSound end × Within s.known_ids end.known_ids × Within end.known_ids end.processed_ids
  unfolding search_ids
  search_ids-IsSound zero s end w h = cc
  search_ids-IsSound (suc rounds) s end w h =
      elim (Bool-cases (length (to_query split_whitespace like s) == 0)) [
        | inl e ↦
            subst
              (λ x. IsSound x × Within s.known_ids x.known_ids × Within x.known_ids x.processed_ids)
              (some-injective s end (rw e at h)) (w, (λ k x. x), all_processed s e)
        | inr e ↦
            let queried = to_query split_whitespace like s in
            let (sound, grown, done) =
              search_ids-IsSound rounds (query_all split_whitespace like table queried s) end
                (query_all-IsSound queried s w) (rw e at h) in
            (sound, (λ k x. grown k (query_all-known queried s k x)), done)
      ]

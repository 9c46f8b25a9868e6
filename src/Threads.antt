-- ===== src/Threads.antt =====
-- backend/src/db/messages.rs: `compute_thread_id`, `get_thread_messages` and `get_full_thread`, which collects
-- a thread over all folders. The table is its rows; the words of a header and the LIKE of SQLite are
-- parameters. The sets of ids are lists without repetition; the order in which a round queries is theirs.
pub mod Ids
pub mod Ends
pub mod Closed
pub mod Whole
mod Tests
use rav.Common.{
  replace, ℕ, zero, suc, ◌≡◌, Bool, true, false, not, ◌&&◌, ◌||◌, Option, none, some, List, [], ◌∷◌,
  ◌++◌, ◌==◌, if◌then◌else◌, length, keep, any, Text, text_eq, sort_by, unwrap_or,
}

pub record CachedMessage : Type 0 where
  pub folder : Text
  pub uid : ℕ
  pub message_id : Option Text
  pub in_reply_to : Option Text
  pub references_header : Option Text
  pub date_epoch : ℕ

abbrev is_empty : Text → Bool
is_empty [] = true
is_empty (c ∷ s) = false

-- `o.filter(|s| !s.is_empty())`
abbrev non_empty : Option Text → Option Text
non_empty none = none
non_empty (some []) = none
non_empty (some (c ∷ s)) = some (c ∷ s)

abbrev or_else : Option Text → Option Text → Option Text
or_else none second = second
or_else (some id) second = some id

abbrev first_word : List Text → Option Text
first_word [] = none
first_word (w ∷ ws) = non_empty (some w)

abbrev listed : Option Text → List Text
listed none = []
listed (some id) = id ∷ []

abbrev pub has_id : Text → List Text → Bool
has_id id ids = any (λ k. text_eq k id) ids

-- `insert` of a set.
abbrev pub add_id : Text → List Text → List Text
add_id id ids = if has_id id ids then ids else ids ++ id ∷ []

unfoldable pub add_ids : List Text → List Text → List Text
add_ids [] ids = ids
add_ids (id ∷ more) ids = add_ids more (add_id id ids)

abbrev is_id : Text → Option Text → Bool
is_id id none = false
is_id id (some held) = text_eq held id

-- The pattern of `LIKE ?2 ESCAPE '\\'`.
abbrev like_pattern : Text → Text
like_pattern id =
    b'%' ∷ (replace b'_' (b'\\' ∷ b'_' ∷ []) (replace b'%' (b'\\' ∷ b'%' ∷ []) id) ++ b'%' ∷ [])

abbrev like_id : (Text → Text → Bool) → Text → Option Text → Bool
like_id like id none = false
like_id like id (some header) = like header (like_pattern id)

abbrev pub same_place : CachedMessage → CachedMessage → Bool
same_place a b = text_eq a.folder b.folder && (a.uid == b.uid)

pub record Found : Type 0 where
  pub known_ids : List Text
  pub processed_ids : List Text
  pub all_messages : List CachedMessage

-- `retain` of the first message of each place.
unfoldable pub retain_first : List CachedMessage → List CachedMessage → List CachedMessage
retain_first seen [] = []
retain_first seen (m ∷ ms) =
    let later = retain_first seen ms in
    let rest = retain_first (m ∷ seen) ms in if any (same_place m) seen then later else m ∷ rest

module _ (split_whitespace : Text → List Text) (like : Text → Text → Bool) where
  abbrev words_of : Option Text → List Text
  words_of none = []
  words_of (some header) = split_whitespace header

  unfoldable pub compute_thread_id : Option Text → Option Text → Option Text → Option Text
  compute_thread_id message_id in_reply_to references_header =
      or_else (first_word (words_of references_header))
        (or_else (non_empty in_reply_to) (non_empty message_id))

  -- The ids that a message names.
  abbrev pub ids_of : CachedMessage → List Text
  ids_of m =
      listed (non_empty m.message_id)
      ++ (listed (non_empty m.in_reply_to)
          ++ keep (λ w. not (is_empty w)) (words_of m.references_header))

  unfoldable pub get_thread_messages : List CachedMessage → Text → List CachedMessage
  get_thread_messages table id =
      sort_by (λ m. m.date_epoch)
        (keep
          (λ m.
            is_id id m.message_id || is_id id m.in_reply_to || like_id like id m.references_header)
          table)

  -- What is found for one id.
  unfoldable pub take_found : List CachedMessage → Found → Found
  take_found [] s = s
  take_found (m ∷ ms) s = take_found ms (record s {
    known_ids = add_ids (ids_of m) s.known_ids;
    all_messages = s.all_messages ++ m ∷ [];
  })

  abbrev pub query_one : List CachedMessage → Text → Found → Found
  query_one table id s =
      take_found (get_thread_messages table id)
        (record s { processed_ids = add_id id s.processed_ids })

  unfoldable pub query_all : List CachedMessage → List Text → Found → Found
  query_all table [] s = s
  query_all table (id ∷ ids) s = query_all table ids (query_one table id s)

  abbrev pub to_query : Found → List Text
  to_query s = keep (λ id. not (has_id id s.processed_ids)) s.known_ids

  -- The `loop`, with a bound on its rounds.
  unfoldable pub search_ids : List CachedMessage → ℕ → Found → Option Found
  search_ids table zero s = none
  search_ids table (suc rounds) s =
      let later = search_ids table rounds (query_all table (to_query s) s) in
      if length (to_query s) == 0 then some s else later

  abbrev pub seeds : Text → Option Text → List Text
  seeds message_id references =
      add_ids (keep (λ w. not (is_empty w)) (words_of references)) (message_id ∷ [])

  abbrev pub first_found : Text → Option Text → Found
  first_found message_id references = record {
    known_ids = seeds message_id references;
    processed_ids = [];
    all_messages = [];
  }

  abbrev pub sorted : Option Found → Option (List CachedMessage)
  sorted none = none
  sorted (some s) = some (sort_by (λ m. m.date_epoch) (retain_first [] s.all_messages))

  unfoldable pub get_full_thread :
      List CachedMessage → ℕ → Text → Option Text → Option (List CachedMessage)
  get_full_thread table rounds message_id references =
      sorted (search_ids table rounds (first_found message_id references))

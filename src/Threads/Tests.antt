-- ===== src/Threads/Tests.antt =====
-- A thread of three messages, of which the last is found by a header of the second.
use rav.Common.{
  ℕ, ◌≡◌, refl, Bool, Option, none, some, List, [], ◌∷◌, ◌++◌, Text, codes, text_eq, sort_by,
  insert_by, replace,
}
use rav.Threads.{
  CachedMessage, get_full_thread, get_thread_messages, search_ids, query_all, take_found, add_ids,
  retain_first, seeds, compute_thread_id,
}
use rav.Threads.Ids.{Within}
use rav.Threads.Whole.{enough_rounds, IsThread, get_full_thread-IsThread}

abbrev one_word : Text → List Text
one_word s = s ∷ []

-- A pattern without wildcards inside.
abbrev like_test : Text → Text → Bool
like_test header pattern = text_eq (b'%' ∷ (header ++ b'%' ∷ [])) pattern

abbrev message_of : ℕ → Text → Option Text → Option Text → CachedMessage
message_of uid id in_reply_to references = record {
  folder = codes "INBOX";
  uid = uid;
  message_id = some id;
  in_reply_to = in_reply_to;
  references_header = references;
  date_epoch = uid;
}

abbrev first_mail : CachedMessage
first_mail = message_of 1 (codes "a") none none

abbrev reply : CachedMessage
reply = message_of 2 (codes "b") (some (codes "a")) none

abbrev later_reply : CachedMessage
later_reply = message_of 4 (codes "c") none (some (codes "b"))

abbrev stranger : CachedMessage
stranger = message_of 3 (codes "z") none none

abbrev table : List CachedMessage
table = later_reply ∷ stranger ∷ reply ∷ first_mail ∷ []

whole_thread :
    get_full_thread one_word like_test table 9 (codes "a") none
    ≡ some (first_mail ∷ reply ∷ later_reply ∷ [])
unfolding get_full_thread search_ids query_all take_found add_ids retain_first get_thread_messages
    sort_by insert_by text_eq replace
whole_thread = refl

oldest_names_thread :
    compute_thread_id one_word like_test (some (codes "c")) none (some (codes "b"))
    ≡ some (codes "b")
unfolding compute_thread_id
oldest_names_thread = refl

get_full_thread-IsThread_example :
    (thread : List CachedMessage) × (ids : List Text) × (get_full_thread one_word like_test table
        (enough_rounds one_word like_test table (codes "a") none)
        (codes "a")
        none
      ≡ some thread)
    × Within (seeds one_word like_test (codes "a") none) ids
    × IsThread one_word like_test table ids thread
get_full_thread-IsThread_example =
    get_full_thread-IsThread one_word like_test table (codes "a") none

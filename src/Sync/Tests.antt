-- ===== src/Sync/Tests.antt =====
-- Runs and witnesses for the synchronisation: a folder of three cached messages.
use rav.Sync.Qresync.{up_from}
use rav.Common.{
  ◌++◌, All, inl, inr, ℕ, ◌≡◌, refl, subst, Bool, true, false, Option, none, some, List, [], ◌∷◌,
  arith, ◌==◌, if◌then◌else◌, any, Text, codes, text_eq, split_at, join,
}
use rav.Common.Maps.{get, insert}
use rav.Sync.{
  Row, FolderCache, FolderStatus, ChangedFlags, ImapMessageHeader, Server, imap_map, sort_texts,
  insert_text, text_leb, fetch_and_store_new, upsert_all, nat_Eq,
}
use rav.Sync.Cycle.{
  sync_full, sync_condstore, sync_folder, reconcile, apply_changed, delete_all, remove_vanished,
}
use rav.Sync.Rows.{flags_at}
use rav.Sync.Full.{settled, sync_full-settled}
use rav.Sync.Quiet.{IsQuiet}
use rav.Sync.Vanished.{latest, IsNotFetched, sync_condstore-named, oversized_lost}
use rav.Sync.Qresync.{UidRange, Response, expand_from, fetch_changed_flags, gather}

abbrev row_of : ℕ → Text → Row Bool
row_of uid flags = record { uid = uid; flags = flags; header = true }

abbrev cached : List (Row Bool)
cached = row_of 3 (codes "\\Seen") ∷ row_of 5 [] ∷ row_of 9 (codes "a,b") ∷ []

abbrev cache : FolderCache Bool
cache = record {
  rows = cached;
  uid_validity = 7;
  total_count = 3;
  unread_count = 2;
  highest_modseq = 40;
  is_fresh = true;
}

-- On the server 5 is gone, 3 has lost its flag, and 12 is new.
abbrev state : List (ℕ × List Text)
state = (3, []) ∷ (9, codes "b" ∷ codes "a" ∷ []) ∷ (12, []) ∷ []

abbrev new_header : ImapMessageHeader Bool
new_header = record { uid = 12; flags = []; header = false }

abbrev now_status : FolderStatus
now_status = record { uid_validity = 7; exists = 3; uid_next = 13; highest_modseq = 50 }

abbrev delta : ChangedFlags
delta = record { changed = (3, []) ∷ []; vanished = some (5 ∷ []); highest_modseq = 50 }

abbrev new_headers : ℕ → Option (List (ImapMessageHeader Bool))
new_headers from = some (new_header ∷ [])

abbrev server : Server Bool
server = record {
  folder_status = some now_status;
  fetch_changed_flags = λ modseq validity. some delta;
  fetch_uids_and_flags = some state;
  fetch_headers = new_headers;
}

abbrev synced : List (Row Bool)
synced = row_of 3 [] ∷ row_of 9 (codes "a,b") ∷ record { uid = 12; flags = []; header = false } ∷ []

full_run : (sync_full server now_status cache).1.rows ≡ synced
unfolding sync_full reconcile imap_map get insert sort_texts insert_text text_leb
    fetch_and_store_new upsert_all text_eq split_at join
full_run = refl

condstore_run : (sync_folder server cache).1.rows ≡ synced
unfolding sync_folder sync_condstore apply_changed delete_all remove_vanished sort_texts insert_text
    text_leb fetch_and_store_new upsert_all join
condstore_run = refl

sync_full-settled_example :
    flags_at 3 (sync_full server now_status cache).1.rows
    ≡ settled (flags_at 3 cached) (get 3 (imap_map state []))
sync_full-settled_example =
    sync_full-settled server now_status cache state 3 refl (refl, (refl, (refl, tt))) (omega arith)

-- What the server gives has no message 5.
five-IsNotFetched : IsNotFetched 5 server
five-IsNotFetched from headers e =
    let same : new_header ∷ [] ≡ headers = cc e in
    subst (λ hs. any (λ h. h.uid == 5) hs ≡ false) same refl

sync_condstore-named_example :
    flags_at 5 (sync_condstore server now_status cache).1.rows
    ≡ (if any (λ u. u == 5) (5 ∷ []) then none else latest 5 ((3, []) ∷ []) (flags_at 5 cached))
sync_condstore-named_example =
    sync_condstore-named server now_status cache ((3, []) ∷ []) (5 ∷ []) 50 5 refl five-IsNotFetched

abbrev too_long : List UidRange
too_long = record { first = 5; last = 200000 } ∷ []

-- The deletions, as a real answer has them among others.
abbrev named : List Response
named =
    Response.other
    ∷ Response.vanished too_long
    ∷ Response.vanished (record { first = 7; last = 8 } ∷ [])
    ∷ Response.fetch (some 3) [] (some 47)
    ∷ []

named-IsQuiet : All (IsQuiet 5) named
named-IsQuiet = (tt, (inr refl, (inl refl, (ground arith, tt))))

abbrev forgetful : Server Bool
forgetful = record {
  folder_status = some now_status;
  fetch_changed_flags = fetch_changed_flags (some (named ++ Response.finished true ∷ [])) none;
  fetch_uids_and_flags = some state;
  fetch_headers = new_headers;
}

five_still_there : flags_at 5 (sync_condstore forgetful now_status cache).1.rows ≡ some []
unfolding sync_condstore up_from delete_all fetch_changed_flags gather expand_from apply_changed
    remove_vanished fetch_and_store_new upsert_all join
five_still_there = refl

forgetful-IsNotFetched : IsNotFetched 5 forgetful
forgetful-IsNotFetched = five-IsNotFetched

oversized_lost_example :
    (flags_at 5 (sync_condstore forgetful now_status cache).1.rows ≡ flags_at 5 cached)
    × ((sync_condstore forgetful now_status cache).1.highest_modseq ≡ 47)
oversized_lost_example =
    oversized_lost forgetful now_status cache named [] none 5 refl (omega arith) (omega arith)
      named-IsQuiet forgetful-IsNotFetched

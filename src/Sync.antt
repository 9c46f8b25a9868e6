-- ===== src/Sync.antt =====
-- backend/src/realtime/sync.rs: the synchronisation of the cached messages of one folder with the IMAP
-- server, and the statements of backend/src/db/messages.rs and backend/src/db/folders.rs that it uses. All of
-- them name the folder, so a cache is the rows of one folder, with its row of `folders`. `H` is what a row
-- keeps of a header beside its flags. What the server answers is a parameter; the database does not fail.
pub mod Cycle
pub mod Qresync
pub mod Rows
pub mod Full
pub mod Quiet
pub mod Vanished
mod Tests
use rav.Common.{
  ℕ, zero, suc, ◌+◌, Bool, true, false, not, ◌&&◌, ◌||◌, Option, none, some, List, [], ◌∷◌, ◌++◌,
  ltb, leb, ◌==◌, ==_iff, if◌then◌else◌, length, map, keep, any, Text, codes, text_eq, contains,
  split_at, join,
}
use rav.Common.Maps.{Eq, Map, get, insert}

instance abbrev pub nat_Eq : Eq ℕ
nat_Eq = record { eq = ◌==◌; eq_law = ==_iff }

-- The order of strings, which is that of their code points.
unfoldable pub text_leb : Text → Text → Bool
text_leb [] t = true
text_leb (c ∷ s) [] = false
text_leb (c ∷ s) (d ∷ t) = ltb c d || ((c == d) && text_leb s t)

unfoldable pub insert_text : Text → List Text → List Text
insert_text t [] = t ∷ []
insert_text t (u ∷ texts) = if text_leb t u then t ∷ u ∷ texts else u ∷ insert_text t texts

-- `sort()`
unfoldable pub sort_texts : List Text → List Text
sort_texts [] = []
sort_texts (t ∷ texts) = insert_text t (sort_texts texts)

-- `sorted.sort(); sorted.join(",")`
abbrev pub flags_csv : List Text → Text
flags_csv flags = join (b',' ∷ []) (sort_texts flags)

-- The flags of a cached row, sorted.
abbrev pub normalized : Text → Text
normalized csv = flags_csv (split_at b',' csv)

pub record Row (H : Type 0) : Type 0 where
  pub uid : ℕ
  pub flags : Text
  pub header : H

pub record FolderCache (H : Type 0) : Type 0 where
  pub rows : List (Row H)
  pub uid_validity : ℕ
  pub total_count : ℕ
  pub unread_count : ℕ
  pub highest_modseq : ℕ
  pub is_fresh : Bool

-- `FolderStatusExtended`, without the unseen count, which the synchronisation does not read.
pub record FolderStatus : Type 0 where
  pub uid_validity : ℕ
  pub exists : ℕ
  pub uid_next : ℕ
  pub highest_modseq : ℕ

pub record ChangedFlags : Type 0 where
  pub changed : List (ℕ × List Text)
  pub vanished : Option (List ℕ)
  pub highest_modseq : ℕ

pub record ImapMessageHeader (H : Type 0) : Type 0 where
  pub uid : ℕ
  pub flags : List Text
  pub header : H

-- What the server answers during one cycle; `none` is an error.
pub record Server (H : Type 0) : Type 0 where
  pub folder_status : Option FolderStatus
  pub fetch_changed_flags : ℕ → ℕ → Option ChangedFlags
  pub fetch_uids_and_flags : Option (List (ℕ × List Text))
  pub fetch_headers : ℕ → Option (List (ImapMessageHeader H))

pub data MailEvent : Type 0 where
  folder_updated : MailEvent
  folder_state_changed : ℕ → MailEvent
  flags_changed : MailEvent

abbrev lower_code : ℕ → ℕ
lower_code c = if leb b'A' c && leb c b'Z' then c + 32 else c

-- The flags of the server by uid; the last one counts.
unfoldable pub imap_map : List (ℕ × List Text) → Map ℕ Text → Map ℕ Text
imap_map [] m = m
imap_map ((uid, flags) ∷ state) m = imap_map state (insert uid (flags_csv flags) m)

-- Whether anything changed, the cache, and the events.
abbrev pub Outcome : Type 0 → Type 0
Outcome H = Bool × FolderCache H × List MailEvent

module _ {H : Type 0} where
  abbrev pub update_message_flags : ℕ → Text → List (Row H) → List (Row H)
  update_message_flags uid csv rows =
      map (λ r. if r.uid == uid then record r { flags = csv } else r) rows

  abbrev pub delete_message : ℕ → List (Row H) → List (Row H)
  delete_message uid rows = keep (λ r. not (r.uid == uid)) rows

  abbrev pub count_messages : List (Row H) → ℕ
  count_messages rows = length rows

  abbrev pub max_uid : List (Row H) → ℕ
  max_uid [] = 0
  max_uid (r ∷ rows) = let later = max_uid rows in if ltb later r.uid then r.uid else later

  -- `INSERT OR REPLACE` of the row of a header.
  abbrev pub upsert_message : ImapMessageHeader H → List (Row H) → List (Row H)
  upsert_message h rows =
      delete_message h.uid rows
      ++ record { uid = h.uid; flags = join (b',' ∷ []) h.flags; header = h.header } ∷ []

  abbrev pub get_all_uids_and_flags : List (Row H) → List (ℕ × Text)
  get_all_uids_and_flags rows = map (λ r. (r.uid, r.flags)) rows

  abbrev pub update_folder_sync_status : ℕ → ℕ → ℕ → FolderCache H → FolderCache H
  update_folder_sync_status uid_validity total_count highest_modseq c = record c {
    uid_validity = uid_validity;
    total_count = total_count;
    highest_modseq = highest_modseq;
    is_fresh = true;
  }

  abbrev pub invalidate_folder_freshness : FolderCache H → FolderCache H
  invalidate_folder_freshness c = record c { is_fresh = false }

  -- `flags NOT LIKE '%\Seen%'`, which does not regard the case of letters.
  abbrev is_unread : Row H → Bool
  is_unread r = not (contains (map lower_code r.flags) (codes "\\seen"))

  abbrev pub refresh_unread_count : FolderCache H → FolderCache H
  refresh_unread_count c = record c { unread_count = length (keep is_unread c.rows) }

  unfoldable pub upsert_all : List (ImapMessageHeader H) → List (Row H) → List (Row H)
  upsert_all [] rows = rows
  upsert_all (h ∷ headers) rows = upsert_all headers (upsert_message h rows)

  -- The number of new messages, and the rows after it.
  abbrev stored : ℕ → Option (List (ImapMessageHeader H)) → List (Row H) → ℕ × List (Row H)
  stored from none rows = (0, rows)
  stored from (some headers) rows =
      let new = keep (λ h. leb from h.uid) headers in (length new, upsert_all new rows)

  -- `from_uid:*` may give the last message of the folder although it is below.
  unfoldable pub fetch_and_store_new : Server H → ℕ → List (Row H) → ℕ × List (Row H)
  fetch_and_store_new server from rows = stored from (server.fetch_headers from) rows

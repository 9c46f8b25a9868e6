-- ===== src/Sync/Cycle.antt =====
-- backend/src/realtime/sync.rs: `sync_full`, `sync_condstore` and the loop body of `run_sync` for one folder.
use rav.Common.{
  ℕ, ◌+◌, Bool, true, false, not, ◌&&◌, ◌||◌, Option, none, some, List, [], ◌∷◌, ◌++◌, ltb, ◌==◌,
  if◌then◌else◌, length, keep, any, Text, text_eq,
}
use rav.Common.Maps.{Map, get}
use rav.Sync.{
  nat_Eq, flags_csv, normalized, Row, FolderCache, FolderStatus, ChangedFlags, Server, MailEvent,
  Outcome, update_message_flags, delete_message, count_messages, max_uid, get_all_uids_and_flags,
  update_folder_sync_status, invalidate_folder_freshness, refresh_unread_count, fetch_and_store_new,
  imap_map,
}

module _ {H : Type 0} where
  -- One cached message against the server's flags.
  abbrev pub reconcile_one : ℕ → Text → Option Text → List (Row H) → Bool × List (Row H)
  reconcile_one uid csv none rows = (true, delete_message uid rows)
  reconcile_one uid csv (some imap_csv) rows =
      if text_eq (normalized csv) imap_csv
      then (false, rows)
      else (true, update_message_flags uid imap_csv rows)

  -- The loop of `sync_full` over the cached messages.
  unfoldable pub reconcile : List (ℕ × Text) → Map ℕ Text → List (Row H) → Bool × List (Row H)
  reconcile [] m rows = (false, rows)
  reconcile ((uid, csv) ∷ cached) m rows =
      let (here, after) = reconcile_one uid csv (get uid m) rows in
      let (later, last) = reconcile cached m after in (here || later, last)

  abbrev pub note_flags : Outcome H → Outcome H
  note_flags (changed, c, events) =
      (changed, c, if changed then events ++ MailEvent.flags_changed ∷ [] else events)

  -- The new messages of `sync_full`.
  abbrev pub full_new : Server H → Bool → ℕ → Bool → FolderCache H → Outcome H
  full_new server false highest changed c = (changed, c, [])
  full_new server true highest changed c =
      let (count, rows) = fetch_and_store_new server (highest + 1) c.rows in
      let after = record c { rows = rows } in
      if count == 0
      then (changed, after, [])
      else (true, refresh_unread_count after, MailEvent.folder_state_changed count ∷ [])

  abbrev pub full_with :
      Server H → FolderStatus → FolderCache H → Option (List (ℕ × List Text)) → Outcome H
  full_with server status c none = (false, c, [])
  full_with server status c (some state) =
      let m = imap_map state [] in
      let (changed, rows) = reconcile (get_all_uids_and_flags c.rows) m c.rows in
      let after =
        update_folder_sync_status status.uid_validity status.exists status.highest_modseq
          (record c { rows = rows }) in
      let has_new = any (λ e. ltb (max_uid c.rows) e.0) m in
      note_flags (full_new server has_new (max_uid c.rows) changed after)

  unfoldable pub sync_full : Server H → FolderStatus → FolderCache H → Outcome H
  sync_full server status c =
      if length c.rows == 0
      then (
        false,
        update_folder_sync_status status.uid_validity status.exists status.highest_modseq c,
        [],
      )
      else full_with server status c server.fetch_uids_and_flags

  unfoldable pub apply_changed : List (ℕ × List Text) → List (Row H) → List (Row H)
  apply_changed [] rows = rows
  apply_changed ((uid, flags) ∷ changed) rows =
      apply_changed changed (update_message_flags uid (flags_csv flags) rows)

  unfoldable pub delete_all : List ℕ → List (Row H) → List (Row H)
  delete_all [] rows = rows
  delete_all (uid ∷ uids) rows = delete_all uids (delete_message uid rows)

  -- The uids that the server does not name are deleted.
  abbrev delete_missing : List (ℕ × List Text) → List (Row H) → List (Row H)
  delete_missing state rows = keep (λ r. any (λ e. e.0 == r.uid) state) rows

  abbrev by_count : Bool → Option (List (ℕ × List Text)) → Bool → List (Row H) → Bool × List (Row H)
  by_count false state changed rows = (changed, rows)
  by_count true none changed rows = (changed, rows)
  by_count true (some state) changed rows =
      (changed || any (λ r. not (any (λ e. e.0 == r.uid) state)) rows, delete_missing state rows)

  -- The deletions: those that the server named, or those that the counts tell of.
  unfoldable pub remove_vanished :
      Server H → FolderStatus → Option (List ℕ) → Bool → List (Row H) → Bool × List (Row H)
  remove_vanished server status none changed rows =
      by_count (ltb status.exists (count_messages rows)) server.fetch_uids_and_flags changed rows
  remove_vanished server status (some []) changed rows = (changed, rows)
  remove_vanished server status (some (uid ∷ uids)) changed rows =
      (true, delete_all (uid ∷ uids) rows)

  -- The new messages of `sync_condstore`.
  abbrev pub condstore_new : Server H → Bool → Bool → FolderCache H → Outcome H
  condstore_new server false changed c = (changed, c, [])
  condstore_new server true changed c =
      let (count, rows) = fetch_and_store_new server (max_uid c.rows + 1) c.rows in
      (
        true,
        refresh_unread_count (record c { rows = rows }),
        MailEvent.folder_state_changed count ∷ [],
      )

  abbrev pub with_modseq : FolderStatus → ℕ → Outcome H → Outcome H
  with_modseq status new_modseq (changed, c, events) = (
    changed,
    update_folder_sync_status status.uid_validity status.exists
        (if ltb 0 new_modseq then new_modseq else status.highest_modseq) c,
    events,
  )

  abbrev pub condstore_with :
      Server H → FolderStatus → FolderCache H → Option ChangedFlags → Outcome H
  condstore_with server status c none = sync_full server status c
  condstore_with server status c (some delta) =
      let flagged = apply_changed delta.changed c.rows in
      let (changed, rows) =
        remove_vanished server status delta.vanished (not (length delta.changed == 0)) flagged in
      let has_new = ltb (max_uid rows + 1) status.uid_next in
      note_flags (
        with_modseq status delta.highest_modseq
          (condstore_new server has_new changed (record c { rows = rows })))

  unfoldable pub sync_condstore : Server H → FolderStatus → FolderCache H → Outcome H
  sync_condstore server status c =
      condstore_with server status c
        (server.fetch_changed_flags c.highest_modseq status.uid_validity)

  -- The body of the loop of `run_sync`.
  abbrev pub sync_with : Server H → FolderCache H → Option FolderStatus → Outcome H
  sync_with server c none = (false, c, [])
  sync_with server c (some status) =
      if not (c.uid_validity == 0) && not (status.uid_validity == c.uid_validity)
      then (true, invalidate_folder_freshness c, MailEvent.folder_updated ∷ [])
      else if ltb 0 status.highest_modseq
          && ltb 0 c.highest_modseq
          && (status.highest_modseq == c.highest_modseq)
          && (status.exists == count_messages c.rows)
      then (false, c, [])
      else if ltb 0 status.highest_modseq && ltb 0 c.highest_modseq
      then sync_condstore server status c
      else sync_full server status c

  unfoldable pub sync_folder : Server H → FolderCache H → Outcome H
  sync_folder server c = sync_with server c server.folder_status

-- ===== src/Sync/Vanished.antt =====
-- backend/src/realtime/sync.rs: `sync_condstore` with the deletions that the server names.
use rav.Common.{
  ◌++◌, ltb, All, ℕ, ◌+◌, ◌<◌, ◌≡◌, refl, ◌∙◌, ap, inl, inr, Bool, true, false, not, Option, none,
  some, List, [], ◌∷◌, arith, leb, ◌==◌, if◌then◌else◌, Bool-cases, lt→ltb, keep, any, length, Text,
}
use rav.Sync.{
  Row, Server, FolderCache, FolderStatus, ImapMessageHeader, flags_csv, update_message_flags,
  delete_message, upsert_message, upsert_all, fetch_and_store_new, stored, max_uid,
}
use rav.Sync.Rows.{
  flags_at, over, flags_at-delete_message, flags_at-update_message_flags, flags_at-push,
}
use rav.Sync.Qresync.{Response, fetch_changed_flags}
use rav.Sync.Quiet.{IsQuiet, newest, gather-Spares}
use rav.Sync.Cycle.{
  apply_changed, delete_all, remove_vanished, condstore_new, condstore_with, sync_condstore,
}

-- The flags after the changes that the server reports of a uid, the last one counting.
abbrev pub latest : ℕ → List (ℕ × List Text) → Option Text → Option Text
latest uid [] flags = flags
latest uid ((here, new) ∷ changed) flags =
    latest uid changed (if here == uid then over (flags_csv new) flags else flags)

latest-other :
    (uid : ℕ) (changed : List (ℕ × List Text)) (flags : Option Text)
    → any (λ e. e.0 == uid) changed ≡ false
    → latest uid changed flags ≡ flags
latest-other uid [] flags h = refl
latest-other uid ((here, new) ∷ changed) flags h =
    let differs : (here == uid) ≡ false = ground (arith, h) in
    rw differs (latest-other uid changed flags (ground (arith, h)))

module _ {H : Type 0} where
  flags_at-apply_changed :
      (uid : ℕ) (changed : List (ℕ × List Text)) (rows : List (Row H))
      → flags_at uid (apply_changed changed rows) ≡ latest uid changed (flags_at uid rows)
  unfolding apply_changed
  flags_at-apply_changed uid [] rows = refl
  flags_at-apply_changed uid ((here, new) ∷ changed) rows =
      flags_at-apply_changed uid changed (update_message_flags here (flags_csv new) rows)
      ∙ ap (latest uid changed) (flags_at-update_message_flags here uid (flags_csv new) rows)

  flags_at-delete_all :
      (uid : ℕ) (gone : List ℕ) (rows : List (Row H))
      → flags_at uid (delete_all gone rows)
        ≡ (if any (λ u. u == uid) gone then none else flags_at uid rows)
  unfolding delete_all
  flags_at-delete_all uid [] rows = refl
  flags_at-delete_all uid (u ∷ gone) rows = ground (
    arith,
    flags_at-delete_all uid gone (delete_message u rows),
    flags_at-delete_message u uid rows,
  )

  -- No header of this uid is fetched.
  abbrev pub IsNotFetched : ℕ → Server H → Type 0
  IsNotFetched uid server =
      (from : ℕ) (headers : List (ImapMessageHeader H))
      → server.fetch_headers from ≡ some headers
      → any (λ h. h.uid == uid) headers ≡ false

  flags_at-upsert_other :
      (uid : ℕ) (h : ImapMessageHeader H) (rows : List (Row H))
      → (h.uid == uid) ≡ false
      → flags_at uid (upsert_message h rows) ≡ flags_at uid rows
  flags_at-upsert_other uid h rows e =
      flags_at-push uid (delete_message h.uid rows) _ e
      ∙ flags_at-delete_message h.uid uid rows
      ∙ rw e refl

  flags_at-upsert_others :
      (from uid : ℕ) (headers : List (ImapMessageHeader H)) (rows : List (Row H))
      → any (λ h. h.uid == uid) headers ≡ false
      → flags_at uid (upsert_all (keep (λ h. leb from h.uid) headers) rows) ≡ flags_at uid rows
  unfolding upsert_all
  flags_at-upsert_others from uid [] rows e = refl
  flags_at-upsert_others from uid (h ∷ headers) rows e = elim (Bool-cases (leb from h.uid)) [
    | inl new ↦ rw new (
        flags_at-upsert_others from uid headers (upsert_message h rows) (ground (arith, e))
        ∙ flags_at-upsert_other uid h rows (ground (arith, e)))
    | inr old ↦ rw old (flags_at-upsert_others from uid headers rows (ground (arith, e)))
  ]

  fetched-other :
      (uid : ℕ) (server : Server H) (from : ℕ) (rows : List (Row H))
      → IsNotFetched uid server
      → flags_at uid (fetch_and_store_new server from rows).1 ≡ flags_at uid rows
  unfolding fetch_and_store_new
  fetched-other uid server from rows w = by_answer (server.fetch_headers from) (w from)
    where
      by_answer :
          (o : Option (List (ImapMessageHeader H)))
          → ((headers : List (ImapMessageHeader H))
              → o ≡ some headers
              → any (λ h. h.uid == uid) headers ≡ false)
          → flags_at uid (stored from o rows).1 ≡ flags_at uid rows
      by_answer none k = refl
      by_answer (some headers) k = flags_at-upsert_others from uid headers rows (k headers refl)

  condstore_new-other :
      (uid : ℕ) (server : Server H) (has_new changed : Bool) (c : FolderCache H)
      → IsNotFetched uid server
      → flags_at uid (condstore_new server has_new changed c).1.rows ≡ flags_at uid c.rows
  condstore_new-other uid server false changed c w = refl
  condstore_new-other uid server true changed c w =
      fetched-other uid server (max_uid c.rows + 1) c.rows w

  remove_vanished-named :
      (uid : ℕ) (server : Server H) (status : FolderStatus) (gone : List ℕ) (changed : Bool)
      (rows : List (Row H))
      → flags_at uid (remove_vanished server status (some gone) changed rows).1
        ≡ (if any (λ u. u == uid) gone then none else flags_at uid rows)
  unfolding remove_vanished delete_all
  remove_vanished-named uid server status [] changed rows = refl
  remove_vanished-named uid server status (u ∷ gone) changed rows =
      flags_at-delete_all uid (u ∷ gone) rows

  -- When the server names the deletions, `sync_condstore` leaves of every uid that it does not fetch anew
  -- nothing if the uid is named, and else the flags of the last change that the server reports, or those
  -- that were cached.
  pub sync_condstore-named :
      (server : Server H) (status : FolderStatus) (c : FolderCache H)
      (changed : List (ℕ × List Text)) (gone : List ℕ) (modseq uid : ℕ)
      → server.fetch_changed_flags c.highest_modseq status.uid_validity
        ≡ some (record { changed = changed; vanished = some gone; highest_modseq = modseq })
      → IsNotFetched uid server
      → flags_at uid (sync_condstore server status c).1.rows
        ≡ (if any (λ u. u == uid) gone then none else latest uid changed (flags_at uid c.rows))
  unfolding sync_condstore
  sync_condstore-named server status c changed gone modseq uid answered w =
      ap (λ o. flags_at uid (condstore_with server status c o).1.rows) answered
      ∙ condstore_new-other uid server _ _ _ w
      ∙ remove_vanished-named uid server status gone (not (length changed == 0))
          (apply_changed changed c.rows)
      ∙ ap (λ f. if any (λ u. u == uid) gone then none else f)
          (flags_at-apply_changed uid changed c.rows)

  named_modseq :
      (server : Server H) (status : FolderStatus) (c : FolderCache H)
      (changed : List (ℕ × List Text)) (gone : List ℕ) (modseq : ℕ)
      → server.fetch_changed_flags c.highest_modseq status.uid_validity
        ≡ some (record { changed = changed; vanished = some gone; highest_modseq = modseq })
      → (sync_condstore server status c).1.highest_modseq
        ≡ (if ltb 0 modseq then modseq else status.highest_modseq)
  unfolding sync_condstore
  named_modseq server status c changed gone modseq answered =
      ap (λ o. (condstore_with server status c o).1.highest_modseq) answered

  -- If the server answers a QRESYNC with responses up to the tagged OK of which each one that names a message
  -- among the deletions has a range of more than 100,000 uids, and none has flags of it, the message stays in
  -- the cache as it was unless it is fetched anew; and yet the modification number of the folder moves on, to
  -- the highest that came with flags, or without one to that of the folder's status.
  pub oversized_lost :
      (server : Server H) (status : FolderStatus) (c : FolderCache H) (before after : List Response)
      (condstore : Option (List (ℕ × List Text) × Option ℕ)) (uid : ℕ)
      → server.fetch_changed_flags c.highest_modseq status.uid_validity
        ≡ fetch_changed_flags
            (some (before ++ Response.finished true ∷ after))
            condstore
            c.highest_modseq
            status.uid_validity
      → 0 < status.uid_validity
      → 0 < c.highest_modseq
      → All (IsQuiet uid) before
      → IsNotFetched uid server
      → (flags_at uid (sync_condstore server status c).1.rows ≡ flags_at uid c.rows)
        × ((sync_condstore server status c).1.highest_modseq
            ≡ (if ltb 0 (newest 0 before) then newest 0 before else status.highest_modseq))
  unfolding fetch_changed_flags
  oversized_lost server status c before after condstore uid answered valid known quiet w =
      let (changed, gone, gathered, spared, other) =
        gather-Spares uid before after [] [] 0 quiet refl refl in
      let delta =
        answered
        ∙ rw (lt→ltb 0 status.uid_validity valid, lt→ltb 0 c.highest_modseq known)
            (rw gathered refl) in
      (
        sync_condstore-named server status c changed gone (newest 0 before) uid delta w
            ∙ rw spared (latest-other uid changed (flags_at uid c.rows) other),
        named_modseq server status c changed gone (newest 0 before) delta,
      )

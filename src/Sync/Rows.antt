-- ===== src/Sync/Rows.antt =====
-- backend/src/db/messages.rs: what the statements of the synchronisation do to the flags of a uid.
use rav.Common.{
  ℕ, ◌<◌, ◌≤◌, ◌≡◌, refl, ◌∙◌, inl, inr, false, Option, none, some, List, [], ◌∷◌, ◌++◌, arith, leb,
  ◌==◌, ==_iff, if◌then◌else◌, Bool-cases, keep, any, Text,
}
use rav.Sync.{
  Row, ImapMessageHeader, Server, update_message_flags, delete_message, upsert_message, upsert_all,
  fetch_and_store_new, stored, max_uid,
}

-- New flags for what is there.
abbrev pub over : Text → Option Text → Option Text
over csv none = none
over csv (some flags) = some csv

module _ {H : Type 0} where
  -- The flags that the cache has of a uid.
  abbrev pub flags_at : ℕ → List (Row H) → Option Text
  flags_at uid [] = none
  flags_at uid (r ∷ rows) =
      let later = flags_at uid rows in if r.uid == uid then some r.flags else later

  pub flags_at-delete_message :
      (gone uid : ℕ) (rows : List (Row H))
      → flags_at uid (delete_message gone rows) ≡ (if gone == uid then none else flags_at uid rows)
  flags_at-delete_message gone uid [] = ground arith
  flags_at-delete_message gone uid (r ∷ rows) = ground (
    arith,
    flags_at-delete_message gone uid rows,
    ==_iff r.uid gone,
    ==_iff r.uid uid,
    ==_iff gone uid,
  )

  pub flags_at-update_message_flags :
      (here uid : ℕ) (csv : Text) (rows : List (Row H))
      → flags_at uid (update_message_flags here csv rows)
        ≡ (if here == uid then over csv (flags_at uid rows) else flags_at uid rows)
  flags_at-update_message_flags here uid csv [] = ground arith
  flags_at-update_message_flags here uid csv (r ∷ rows) = ground (
    arith,
    flags_at-update_message_flags here uid csv rows,
    ==_iff r.uid here,
    ==_iff r.uid uid,
    ==_iff here uid,
  )

  pub flags_at-push :
      (uid : ℕ) (rows : List (Row H)) (r : Row H)
      → (r.uid == uid) ≡ false
      → flags_at uid (rows ++ r ∷ []) ≡ flags_at uid rows
  flags_at-push uid [] r h = rw h refl
  flags_at-push uid (q ∷ rows) r h = ground (arith, flags_at-push uid rows r h)

  flags_at-upsert_message :
      (h : ImapMessageHeader H) (uid : ℕ) (rows : List (Row H))
      → uid < h.uid
      → flags_at uid (upsert_message h rows) ≡ flags_at uid rows
  flags_at-upsert_message h uid rows small =
      flags_at-push uid (delete_message h.uid rows) _ (ground (arith, small))
      ∙ flags_at-delete_message h.uid uid rows
      ∙ ground (arith, small)

  flags_at-upsert_all :
      (from uid : ℕ) (headers : List (ImapMessageHeader H)) (rows : List (Row H))
      → uid < from
      → flags_at uid (upsert_all (keep (λ h. leb from h.uid) headers) rows) ≡ flags_at uid rows
  unfolding upsert_all
  flags_at-upsert_all from uid [] rows small = refl
  flags_at-upsert_all from uid (h ∷ headers) rows small = elim (Bool-cases (leb from h.uid)) [
    | inl e ↦ rw e (
        flags_at-upsert_all from uid headers (upsert_message h rows) small
        ∙ flags_at-upsert_message h uid rows (ground (arith, e, small)))
    | inr e ↦ rw e (flags_at-upsert_all from uid headers rows small)
  ]

  -- What is fetched as new leaves the messages below.
  pub flags_at-fetch_and_store_new :
      (server : Server H) (from uid : ℕ) (rows : List (Row H))
      → uid < from
      → flags_at uid (fetch_and_store_new server from rows).1 ≡ flags_at uid rows
  unfolding fetch_and_store_new
  flags_at-fetch_and_store_new server from uid rows small = by_answer (server.fetch_headers from)
    where
      by_answer :
          (o : Option (List (ImapMessageHeader H)))
          → flags_at uid (stored from o rows).1 ≡ flags_at uid rows
      by_answer none = refl
      by_answer (some headers) = flags_at-upsert_all from uid headers rows small

  -- The primary key: no uid is there twice.
  abbrev pub IsKeyed : List (Row H) → Type 0
  IsKeyed [] = Unit
  IsKeyed (r ∷ rows) = (any (λ q. q.uid == r.uid) rows ≡ false) × IsKeyed rows

  -- What is cached is not above the highest uid.
  pub le-max_uid :
      (uid : ℕ) (rows : List (Row H)) (flags : Text)
      → flags_at uid rows ≡ some flags
      → uid ≤ max_uid rows
  le-max_uid uid [] flags h = cc
  le-max_uid uid (r ∷ rows) flags h = ground (arith, le-max_uid uid rows flags, ==_iff r.uid uid)

  pub flags_at-absent :
      (uid : ℕ) (rows : List (Row H))
      → any (λ q. q.uid == uid) rows ≡ false
      → flags_at uid rows ≡ none
  flags_at-absent uid [] h = refl
  flags_at-absent uid (r ∷ rows) h = ground (arith, flags_at-absent uid rows)

-- ===== src/Sync/Full.antt =====
-- backend/src/realtime/sync.rs: `sync_full` against the flags that the server has.
use rav.Common.{
  ℕ, ◌+◌, ◌≤◌, ◌≡◌, refl, subst, ◌∙◌, ap, inl, inr, Bool, true, false, ◌||◌, Option, none, some,
  List, [], ◌∷◌, arith, ltb, ◌==◌, ==_iff, if◌then◌else◌, if-both, Bool-cases, any, length, Text,
  text_eq,
}
use rav.Common.Maps.{Map, get}
use rav.Sync.{
  update_folder_sync_status, nat_Eq, Row, Server, FolderCache, FolderStatus, Outcome, normalized,
  fetch_and_store_new, get_all_uids_and_flags, max_uid, imap_map,
}
use rav.Sync.Rows.{
  flags_at, flags_at-delete_message, flags_at-update_message_flags, flags_at-fetch_and_store_new,
  IsKeyed, flags_at-absent,
}
use rav.Sync.Cycle.{reconcile, reconcile_one, sync_full, full_with, full_new}

-- What the cached flags of a message become by the server's: nothing where it has none, its own flags
-- where they differ.
abbrev pub settled : Option Text → Option Text → Option Text
settled none server = none
settled (some flags) none = none
settled (some flags) (some csv) = some (if text_eq (normalized flags) csv then flags else csv)

abbrev has_uid : ℕ → List (ℕ × Text) → Bool
has_uid uid cached = any (λ e. e.0 == uid) cached

-- Each uid once.
abbrev AreKeyed : List (ℕ × Text) → Type 0
AreKeyed [] = Unit
AreKeyed (e ∷ cached) = (has_uid e.0 cached ≡ false) × AreKeyed cached

module _ {H : Type 0} where
  -- Each of the cached flags is the one of the row.
  abbrev AreOf : List (Row H) → List (ℕ × Text) → Type 0
  AreOf rows [] = Unit
  AreOf rows (e ∷ cached) = (flags_at e.0 rows ≡ some e.1) × AreOf rows cached

  reconcile_one-settled :
      (uid : ℕ) (csv : Text) (server : Option Text) (rows : List (Row H))
      → flags_at uid rows ≡ some csv
      → flags_at uid (reconcile_one uid csv server rows).1 ≡ settled (some csv) server
  reconcile_one-settled uid csv none rows h =
      flags_at-delete_message uid uid rows ∙ ground (arith, h)
  reconcile_one-settled uid csv (some s) rows h = elim (Bool-cases (text_eq (normalized csv) s)) [
    | inl e ↦ rw e h
    | inr e ↦ rw e (flags_at-update_message_flags uid uid s rows ∙ ground (arith, h))
  ]

  reconcile_one-other :
      (here uid : ℕ) (csv : Text) (server : Option Text) (rows : List (Row H))
      → (here == uid) ≡ false
      → flags_at uid (reconcile_one here csv server rows).1 ≡ flags_at uid rows
  reconcile_one-other here uid csv none rows h = flags_at-delete_message here uid rows ∙ rw h refl
  reconcile_one-other here uid csv (some s) rows h =
      elim (Bool-cases (text_eq (normalized csv) s)) [
        | inl e ↦ rw e refl
        | inr e ↦ rw e (flags_at-update_message_flags here uid s rows ∙ rw h refl)
      ]

  AreOf-reconcile_one :
      (here : ℕ) (csv : Text) (server : Option Text) (rows : List (Row H))
      (cached : List (ℕ × Text))
      → has_uid here cached ≡ false
      → AreOf rows cached
      → AreOf (reconcile_one here csv server rows).1 cached
  AreOf-reconcile_one here csv server rows [] h w = tt
  AreOf-reconcile_one here csv server rows (e ∷ cached) h w = (
    reconcile_one-other here e.0 csv server rows (ground (arith, h)) ∙ w.0,
    AreOf-reconcile_one here csv server rows cached (ground (arith, h)) w.1,
  )

  reconcile-settled :
      (cached : List (ℕ × Text)) (m : Map ℕ Text) (rows : List (Row H)) (uid : ℕ)
      → AreKeyed cached
      → AreOf rows cached
      → flags_at uid (reconcile cached m rows).1 ≡ (
          if has_uid uid cached then settled (flags_at uid rows) (get uid m) else flags_at uid rows)
  unfolding reconcile
  reconcile-settled [] m rows uid k w = refl
  reconcile-settled ((here, csv) ∷ cached) m rows uid k w =
      let server = get here m in
      let after = (reconcile_one here csv server rows).1 in
      let kept = AreOf-reconcile_one here csv server rows cached k.0 w.1 in
      elim (Bool-cases (here == uid)) [
        | inl e ↦
            subst
              (λ u. flags_at u (reconcile cached m after).1 ≡ (
                if (here == u) || has_uid u cached
                then settled (flags_at u rows) (get u m)
                else flags_at u rows))
              ((==_iff here uid).0 e)
              (rw ((==_iff here here).1 refl, w.0)
                ((rw k.0 at (reconcile-settled cached m after here k.1 kept))
                  ∙ reconcile_one-settled here csv server rows w.0))
        | inr e ↦
            let same = reconcile_one-other here uid csv server rows e in
            rw e (rw same at (reconcile-settled cached m after uid k.1 kept))
      ]

  has_uid-get_all :
      (uid : ℕ) (rows : List (Row H))
      → has_uid uid (get_all_uids_and_flags rows) ≡ any (λ q. q.uid == uid) rows
  has_uid-get_all uid [] = refl
  has_uid-get_all uid (r ∷ rows) = ap (λ b. (r.uid == uid) || b) (has_uid-get_all uid rows)

  AreKeyed-get_all : (rows : List (Row H)) → IsKeyed rows → AreKeyed (get_all_uids_and_flags rows)
  AreKeyed-get_all [] k = tt
  AreKeyed-get_all (r ∷ rows) k = (has_uid-get_all r.uid rows ∙ k.0, AreKeyed-get_all rows k.1)

  AreOf-cons :
      (r : Row H) (rows : List (Row H)) (cached : List (ℕ × Text))
      → has_uid r.uid cached ≡ false
      → AreOf rows cached
      → AreOf (r ∷ rows) cached
  AreOf-cons r rows [] h w = tt
  AreOf-cons r rows (e ∷ cached) h w =
      (ground (arith, h, w.0, ==_iff r.uid e.0), AreOf-cons r rows cached (ground (arith, h)) w.1)

  AreOf-get_all : (rows : List (Row H)) → IsKeyed rows → AreOf rows (get_all_uids_and_flags rows)
  AreOf-get_all [] k = tt
  AreOf-get_all (r ∷ rows) k = (
    rw ((==_iff r.uid r.uid).1 refl) refl,
    AreOf-cons r rows (get_all_uids_and_flags rows) (has_uid-get_all r.uid rows ∙ k.0)
        (AreOf-get_all rows k.1),
  )

  -- The loop over all cached messages settles every uid.
  reconcile_all :
      (m : Map ℕ Text) (rows : List (Row H)) (uid : ℕ)
      → IsKeyed rows
      → flags_at uid (reconcile (get_all_uids_and_flags rows) m rows).1
        ≡ settled (flags_at uid rows) (get uid m)
  reconcile_all m rows uid k =
      let all =
        reconcile-settled (get_all_uids_and_flags rows) m rows uid (AreKeyed-get_all rows k)
          (AreOf-get_all rows k) in
      elim (Bool-cases (any (λ q. q.uid == uid) rows)) [
        | inl e ↦ rw (has_uid-get_all uid rows, e) at all
        | inr e ↦
            let gone = flags_at-absent uid rows e in
            (rw (has_uid-get_all uid rows, e) at all) ∙ rw gone refl
      ]

  full_new-old :
      (server : Server H) (has_new : Bool) (highest uid : ℕ) (changed : Bool) (c : FolderCache H)
      → uid ≤ highest
      → flags_at uid (full_new server has_new highest changed c).1.rows ≡ flags_at uid c.rows
  full_new-old server false highest uid changed c h = refl
  full_new-old server true highest uid changed c h =
      let same = flags_at-fetch_and_store_new server (highest + 1) uid c.rows (omega (arith, h)) in
      if-both {A = Outcome H} (λ o. flags_at uid o.1.rows ≡ flags_at uid c.rows)
        ((fetch_and_store_new server (highest + 1) c.rows).0 == 0) same same

  flags_at-empty :
      (uid : ℕ) (rows : List (Row H)) → (length rows == 0) ≡ true → flags_at uid rows ≡ none
  flags_at-empty uid [] h = refl
  flags_at-empty uid (r ∷ rows) h = ground (arith, h)

  -- When the server answers, `sync_full` leaves of a cache with distinct uids, for every uid up to the
  -- highest that was cached, what the server's flags make of it: the message is gone if the server has
  -- none, has the server's flags where they differed when sorted, and is as it was otherwise.
  pub sync_full-settled :
      (server : Server H) (status : FolderStatus) (c : FolderCache H) (state : List (ℕ × List Text))
      (uid : ℕ)
      → server.fetch_uids_and_flags ≡ some state
      → IsKeyed c.rows
      → uid ≤ max_uid c.rows
      → flags_at uid (sync_full server status c).1.rows
        ≡ settled (flags_at uid c.rows) (get uid (imap_map state []))
  unfolding sync_full
  sync_full-settled server status c state uid answered k low =
      elim (Bool-cases (length c.rows == 0)) [
        | inl e ↦ let none_left = flags_at-empty uid c.rows e in rw e (rw none_left refl)
        | inr e ↦ rw e (
            ap (λ o. flags_at uid (full_with server status c o).1.rows) answered
            ∙ full_new-old server (any (λ x. ltb (max_uid c.rows) x.0) (imap_map state []))
                (max_uid c.rows) uid
                (reconcile (get_all_uids_and_flags c.rows) (imap_map state []) c.rows).0
                (update_folder_sync_status status.uid_validity status.exists status.highest_modseq
                  (record c {
                    rows = (reconcile (get_all_uids_and_flags c.rows) (imap_map state []) c.rows).1;
                  }))
                low
            ∙ reconcile_all (imap_map state []) c.rows uid k)
      ]

-- ===== src/Sync/Quiet.antt =====
-- backend/src/imap/client.rs: what `try_qresync` gathers from responses that spare a uid.
use rav.Common.{
  ◌⊎◌, ◌≢◌, ◌++◌, ltb, ==_iff, All, ℕ, ◌≡◌, refl, ◌∙◌, ap, inl, inr, true, false, Option, none,
  some, List, [], ◌∷◌, arith, ◌==◌, if◌then◌else◌, Bool-cases, any, all, Text,
}
use rav.Sync.{ChangedFlags}
use rav.Sync.Qresync.{
  UidRange, Response, span, covers, gather, any-append, expand_ranges, fits, any-expand_ranges,
}

-- A response that takes nothing from a uid: of deletions, one that does not name it or that has a range of more
-- than 100,000 uids; of flags, one of another uid.
abbrev pub IsQuiet : ℕ → Response → Type 0
IsQuiet uid (Response.vanished ranges) =
    (any (covers uid) ranges ≡ false) ⊎ (any (λ r. ltb 100000 (span r)) ranges ≡ true)
IsQuiet uid (Response.fetch u flags m) = u ≢ some uid
IsQuiet uid (Response.finished done) = true ≡ false
IsQuiet uid Response.other = Unit

-- The highest modification number among the flags.
abbrev pub newest : ℕ → List Response → ℕ
newest n [] = n
newest n (Response.fetch u flags none ∷ responses) = newest n responses
newest n (Response.fetch u flags (some m) ∷ responses) = newest (if ltb n m then m else n) responses
newest n (Response.vanished ranges ∷ responses) = newest n responses
newest n (Response.finished done ∷ responses) = newest n responses
newest n (Response.other ∷ responses) = newest n responses

-- What is gathered names the uid nowhere.
abbrev pub Spares : ℕ → ℕ → Option ChangedFlags → Type 0
Spares uid n delta =
    (changed : List (ℕ × List Text)) × (gone : List ℕ) × (delta
      ≡ some (record { changed = changed; vanished = some gone; highest_modseq = n }))
    × (any (λ u. u == uid) gone ≡ false)
    × (any (λ e. e.0 == uid) changed ≡ false)

fits-oversized :
    (ranges : List UidRange)
    → any (λ r. ltb 100000 (span r)) ranges ≡ true
    → all fits ranges ≡ false
fits-oversized [] h = cc
fits-oversized (r ∷ ranges) h = ground (arith, h, fits-oversized ranges)

unnamed :
    (uid : ℕ) (ranges : List UidRange)
    → IsQuiet uid (Response.vanished ranges)
    → any (λ u. u == uid) (expand_ranges ranges) ≡ false
unnamed uid ranges (inl e) = any-expand_ranges uid ranges ∙ ground (arith, e)
unnamed uid ranges (inr e) = any-expand_ranges uid ranges ∙ ground (arith, fits-oversized ranges e)

changed_other :
    (uid u : ℕ) (flags : List Text) (changed : List (ℕ × List Text))
    → some u ≢ some uid
    → any (λ e. e.0 == uid) changed ≡ false
    → any (λ e. e.0 == uid) (changed ++ (u, flags) ∷ []) ≡ false
changed_other uid u flags [] differs h =
    let other : (u == uid) ≡ false = elim (Bool-cases (u == uid)) [
      | inl e ↦ absurd (differs (ap some ((==_iff u uid).0 e)))
      | inr e ↦ e
    ] in
    rw other refl
changed_other uid u flags ((v, f) ∷ changed) differs h =
    ground (arith, h, changed_other uid u flags changed differs)

pub gather-Spares :
    (uid : ℕ) (before after : List Response) (changed : List (ℕ × List Text)) (gone : List ℕ)
    (n : ℕ)
    → All (IsQuiet uid) before
    → any (λ u. u == uid) gone ≡ false
    → any (λ e. e.0 == uid) changed ≡ false
    → Spares uid
        (newest n before)
        (gather (before ++ Response.finished true ∷ after) changed gone n)
unfolding gather
gather-Spares uid [] after changed gone n q g c = (changed, gone, refl, g, c)
gather-Spares uid (Response.vanished ranges ∷ before) after changed gone n q g c =
    gather-Spares uid before after changed (gone ++ expand_ranges ranges) n q.1
      (any-append (λ u. u == uid) gone (expand_ranges ranges)
        ∙ ground (arith, g, unnamed uid ranges q.0))
      c
gather-Spares uid (Response.fetch none flags none ∷ before) after changed gone n q g c =
    gather-Spares uid before after changed gone n q.1 g c
gather-Spares uid (Response.fetch none flags (some m) ∷ before) after changed gone n q g c =
    gather-Spares uid before after changed gone _ q.1 g c
gather-Spares uid (Response.fetch (some u) flags none ∷ before) after changed gone n q g c =
    gather-Spares uid before after (changed ++ (u, flags) ∷ []) gone n q.1 g
      (changed_other uid u flags changed q.0 c)
gather-Spares uid (Response.fetch (some u) flags (some m) ∷ before) after changed gone n q g c =
    gather-Spares uid before after (changed ++ (u, flags) ∷ []) gone _ q.1 g
      (changed_other uid u flags changed q.0 c)
gather-Spares uid (Response.finished done ∷ before) after changed gone n q g c = cc (q.0)
gather-Spares uid (Response.other ∷ before) after changed gone n q g c =
    gather-Spares uid before after changed gone n q.1 g c

-- ===== src/Sync/Qresync.antt =====
-- backend/src/imap/qresync.rs, with `try_qresync` of backend/src/imap/client.rs: what the server says of the
-- changes of a folder, read from its responses in their order.
use rav.Common.{
  ℕ, zero, suc, ◌+◌, ◌-◌, ◌≡◌, refl, Bool, true, false, ◌&&◌, ◌||◌, Option, none, some, List, [],
  ◌∷◌, ◌++◌, arith, ltb, leb, ◌==◌, if◌then◌else◌, any, all, Text, codes, decimal,
}
use rav.Sieve.Quoting.{escape_sieve}
use rav.Sync.{ChangedFlags}

abbrev pub max_range_span : ℕ
max_range_span = 100000

-- A `RangeInclusive<u32>`.
pub record UidRange : Type 0 where
  pub first : ℕ
  pub last : ℕ

unfoldable pub up_from : ℕ → ℕ → List ℕ
up_from first zero = []
up_from first (suc n) = first ∷ up_from (first + 1) n

-- The uids of a range; none if its last is below its first.
abbrev pub range_uids : UidRange → List ℕ
range_uids r = up_from r.first (r.last + 1 - r.first)

abbrev pub span : UidRange → ℕ
span r = r.last - r.first + 1

-- The loop of `expand_ranges`; `out` is what is expanded so far.
unfoldable pub expand_from : List ℕ → List UidRange → List ℕ
expand_from out [] = out
expand_from out (r ∷ ranges) =
    let more = expand_from (out ++ range_uids r) ranges in
    if ltb max_range_span (span r) then [] else more

abbrev pub expand_ranges : List UidRange → List ℕ
expand_ranges = expand_from []

-- The folder is quoted as a string of Sieve is.
abbrev pub select_command : Text → ℕ → ℕ → Text
select_command folder uid_validity modseq =
    codes "SELECT \""
    ++ (escape_sieve folder
        ++ (codes "\" (QRESYNC ("
            ++ (decimal uid_validity ++ (codes " " ++ (decimal modseq ++ codes "))")))))

abbrev pub covers : ℕ → UidRange → Bool
covers uid r = leb r.first uid && leb uid r.last

abbrev pub fits : UidRange → Bool
fits r = leb (span r) max_range_span

pub any-append : (p : ℕ → Bool) (xs ys : List ℕ) → any p (xs ++ ys) ≡ any p xs || any p ys
any-append p [] ys = refl
any-append p (x ∷ xs) ys = ground (arith, any-append p xs ys)

any-up_from :
    (uid first n : ℕ) → any (λ u. u == uid) (up_from first n) ≡ leb first uid && ltb uid (first + n)
unfolding up_from
any-up_from uid first zero = ground arith
any-up_from uid first (suc n) = ground (arith, any-up_from uid (first + 1) n)

any-range_uids : (uid : ℕ) (r : UidRange) → any (λ u. u == uid) (range_uids r) ≡ covers uid r
any-range_uids uid r = ground (arith, any-up_from uid r.first (r.last + 1 - r.first))

any-expand_from :
    (uid : ℕ) (out : List ℕ) (ranges : List UidRange)
    → any (λ u. u == uid) (expand_from out ranges)
      ≡ all fits ranges && (any (λ u. u == uid) out || any (covers uid) ranges)
unfolding expand_from
any-expand_from uid out [] = ground arith
any-expand_from uid out (r ∷ ranges) = ground (
  arith,
  any-expand_from uid (out ++ range_uids r) ranges,
  any-append (λ u. u == uid) out (range_uids r),
  any-range_uids uid r,
)

-- A uid is among the expanded ranges exactly if one of them covers it and each of them has at most 100,000
-- uids: one longer range empties the list of all.
pub any-expand_ranges :
    (uid : ℕ) (ranges : List UidRange)
    → any (λ u. u == uid) (expand_ranges ranges) ≡ all fits ranges && any (covers uid) ranges
any-expand_ranges uid ranges = any-expand_from uid [] ranges

-- What `read_response` gives: one parsed response, of a FETCH its uid, flags and MODSEQ, of the tagged
-- answer whether it is OK.
pub data Response : Type 0 where
  vanished : List UidRange → Response
  fetch : Option ℕ → List Text → Option ℕ → Response
  finished : Bool → Response
  other : Response

abbrev highest : Option ℕ → ℕ → ℕ
highest none so_far = so_far
highest (some modseq) so_far = if ltb so_far modseq then modseq else so_far

abbrev with_uid : Option ℕ → List Text → List (ℕ × List Text) → List (ℕ × List Text)
with_uid none flags changed = changed
with_uid (some uid) flags changed = changed ++ (uid, flags) ∷ []

-- The loop of `try_qresync`; it ends with nothing if the responses end before the tagged one.
unfoldable pub gather : List Response → List (ℕ × List Text) → List ℕ → ℕ → Option ChangedFlags
gather [] changed gone modseq = none
gather (Response.vanished ranges ∷ responses) changed gone modseq =
    gather responses changed (gone ++ expand_ranges ranges) modseq
gather (Response.fetch uid flags m ∷ responses) changed gone modseq =
    gather responses (with_uid uid flags changed) gone (highest m modseq)
gather (Response.finished true ∷ responses) changed gone modseq =
    some (record { changed = changed; vanished = some gone; highest_modseq = modseq })
gather (Response.finished false ∷ responses) changed gone modseq = none
gather (Response.other ∷ responses) changed gone modseq = gather responses changed gone modseq

-- `none` where a command is refused.
abbrev pub try_qresync : Option (List Response) → Option ChangedFlags
try_qresync none = none
try_qresync (some responses) = gather responses [] [] 0

-- The CONDSTORE path: the changed flags and the mailbox's MODSEQ.
abbrev condstore_delta : Option (List (ℕ × List Text) × Option ℕ) → Option ChangedFlags
condstore_delta none = none
condstore_delta (some (items, none)) =
    some (record { changed = items; vanished = none; highest_modseq = 0 })
condstore_delta (some (items, some modseq)) =
    some (record { changed = items; vanished = none; highest_modseq = modseq })

abbrev or_else : Option ChangedFlags → Option ChangedFlags → Option ChangedFlags
or_else none second = second
or_else (some delta) second = some delta

-- `fetch_changed_flags` of a session, given how it answers the commands of either path.
unfoldable pub fetch_changed_flags :
    Option (List Response) → Option (List (ℕ × List Text) × Option ℕ) → ℕ → ℕ → Option ChangedFlags
fetch_changed_flags qresync condstore since_modseq uid_validity =
    if ltb 0 uid_validity && ltb 0 since_modseq
    then or_else (try_qresync qresync) (condstore_delta condstore)
    else condstore_delta condstore

-- ===== src/Outbox/Queries.antt =====
-- backend/src/db/outbox.rs: what the worker's two queries say of the table.
use native.Mathlib.Nat.{le_trans}
use rav.Common.{
  ℕ, ◌≤◌, ◌<◌, ◌≡◌, ◌≢◌, ◌↔◌, refl, ◌⊎◌, inl, inr, true, false, Option, none, some, [], ◌∷◌, arith,
  All, keep, sort_by, Memᴰ, mem-keep, mem-of_keep, mem-sort_by, mem-of_sort_by, IsSortedBy,
  sort_by-IsSortedBy,
}
use rav.Outbox.{
  State, scheduled, sending, failed, OutboxEntry, Table, is_scheduled, is_due, list_due,
  next_send_after, least,
}

-- An entry that the worker may try at `now`.
abbrev pub IsDue : ℕ → OutboxEntry → Type 0
IsDue now r = (r.state ≡ scheduled) × (r.send_after ≤ now)

is_due_iff : (now : ℕ) (r : OutboxEntry) → (is_due now r ≡ true) ↔ IsDue now r
is_due_iff now r = (λ h. (ground arith, ground arith), λ h. ground arith)

-- The due entries are exactly the scheduled entries whose time has come, in the order of their times.
pub list_due_iff :
    (now : ℕ) (rows : Table)
    → ((r : OutboxEntry) → Memᴰ r (list_due now rows) ↔ (Memᴰ r rows × IsDue now r))
      × IsSortedBy (λ r. r.send_after) (list_due now rows)
unfolding list_due
list_due_iff now rows = (
  λ r. (
    (λ m.
        let (n, h) = mem-of_keep (is_due now) r rows (mem-of_sort_by _ r _ m) in
        (n, (is_due_iff now r).0 h)),
    (λ h. mem-sort_by _ r _ (mem-keep (is_due now) r rows h.0 ((is_due_iff now r).1 h.1))),
  ),
  sort_by-IsSortedBy _ (keep (is_due now) rows),
)

-- The answer of `next_send_after`: the least time of a scheduled entry, or none if there is no such.
abbrev pub IsNext : Option ℕ → Table → Type 0
IsNext none rows = All (λ r. r.state ≢ scheduled) rows
IsNext (some t) rows = All (λ r. r.state ≡ scheduled → t ≤ r.send_after) rows

IsNext-mono : (s t : ℕ) (rows : Table) → s ≤ t → IsNext (some t) rows → IsNext (some s) rows
IsNext-mono s t [] h n = tt
IsNext-mono s t (r ∷ rows) h n = ((λ e. le_trans h (n.0 e)), IsNext-mono s t rows h n.1)

IsNext-none : (s : ℕ) (rows : Table) → IsNext none rows → IsNext (some s) rows
IsNext-none s [] n = tt
IsNext-none s (r ∷ rows) n = ((λ e. absurd (n.0 e)), IsNext-none s rows n.1)

IsNext-least :
    (s : ℕ) (o : Option ℕ) (rows : Table) → IsNext o rows → IsNext (some (least s o)) rows
IsNext-least s none rows n = IsNext-none s rows n
IsNext-least s (some t) rows n = IsNext-mono (least s (some t)) t rows (ground arith) n

least_le : (s : ℕ) (o : Option ℕ) → least s o ≤ s
least_le s none = omega arith
least_le s (some t) = ground arith

IsNext-skip :
    (o : Option ℕ) (r : OutboxEntry) (rows : Table)
    → r.state ≢ scheduled
    → IsNext o rows
    → IsNext o (r ∷ rows)
IsNext-skip none r rows h n = (h, n)
IsNext-skip (some t) r rows h n = ((λ e. absurd (h e)), n)

State-cases : (s : State) → (s ≡ scheduled) ⊎ ((is_scheduled s ≡ false) × (s ≢ scheduled))
State-cases scheduled = inl refl
State-cases sending = inr (refl, λ e. cc)
State-cases failed = inr (refl, λ e. cc)

-- `next_send_after` gives the least time of a scheduled entry, and none exactly if no entry is
-- scheduled.
pub next_send_after-IsNext : (rows : Table) → IsNext (next_send_after rows) rows
unfolding next_send_after
next_send_after-IsNext [] = tt
next_send_after-IsNext (r ∷ rows) = elim (State-cases r.state) [
  | inl e ↦ rw e (
    (λ _. least_le r.send_after (next_send_after rows)),
    IsNext-least r.send_after (next_send_after rows) rows (next_send_after-IsNext rows),
  )
  | inr (e, h) ↦ rw e (IsNext-skip (next_send_after rows) r rows h (next_send_after-IsNext rows))
]

keep-nil : (now t : ℕ) (rows : Table) → now < t → IsNext (some t) rows → keep (is_due now) rows ≡ []
keep-nil now t [] h n = refl
keep-nil now t (r ∷ rows) h n = ground (arith, keep-nil now t rows h n.1, n.0)

-- Before the time that `next_send_after` gives, nothing is due: the worker may sleep until then.
pub list_due_before_next :
    (now t : ℕ) (rows : Table) → next_send_after rows ≡ some t → now < t → list_due now rows ≡ []
unfolding list_due sort_by
list_due_before_next now t rows e h =
    rw (keep-nil now t rows h (rw e at (next_send_after-IsNext rows))) refl

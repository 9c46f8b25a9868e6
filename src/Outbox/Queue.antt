-- ===== src/Outbox/Queue.antt =====
-- backend/src/realtime/outbox_worker.rs: the worker beside the user's requests. The worker reads the
-- due entries, and then sends them one after another; a request may come between any two of its
-- writes, and the process may stop at any time.
pub mod Keyed
mod Attempts
pub mod Bounded
pub mod Stuck
pub mod Cancel
use rav.Common.{ℕ, ◌≡◌, String, Option, none, some, List, [], ◌∷◌, Result, ok}
use rav.Outbox.{OutboxEntry, NewOutboxEntry, Table, enqueue, list_due}
use rav.Outbox.Errors.{AppError}
use rav.Outbox.Worker.{start, settle, delete_handler, retry_handler}

-- `pending` is what is left of the due entries of this cycle, `in_flight` the one being sent.
pub record System : Type 0 where
  pub rows : Table
  pub pending : List OutboxEntry
  pub in_flight : Option OutboxEntry

pub data Step (s : System) : System → Type 0 where
  enqueues :
      (e : NewOutboxEntry) (now : ℕ) (row : OutboxEntry) (rows : Table)
      → enqueue e now s.rows ≡ ok (row, rows)
      → Step s (record s { rows = rows })
  cancels :
      (id : String) (rows : Table)
      → delete_handler id s.rows ≡ ok rows
      → Step s (record s { rows = rows })
  retries :
      (id : String) (now : ℕ) (rows : Table)
      → retry_handler id now s.rows ≡ ok rows
      → Step s (record s { rows = rows })
  polls :
      (now : ℕ)
      → s.pending ≡ []
      → s.in_flight ≡ none
      → Step s (record s { pending = list_due now s.rows })
  starts :
      (e : OutboxEntry) (es : List OutboxEntry)
      → s.pending ≡ e ∷ es
      → s.in_flight ≡ none
      → Step s (record { rows = (start e s.rows).0; pending = es; in_flight = some e })
  -- The row could not be marked: the entry is passed over.
  skips :
      (e : OutboxEntry) (es : List OutboxEntry)
      → s.pending ≡ e ∷ es
      → s.in_flight ≡ none
      → Step s (record s { pending = es })
  settles :
      (e : OutboxEntry) (outcome : Result (Unit {0}) AppError) (now : ℕ)
      → s.in_flight ≡ some e
      → Step s (record s { rows = (settle e outcome now s.rows).0; in_flight = none })
  -- The last write failed, and its error is dropped.
  loses : (e : OutboxEntry) → s.in_flight ≡ some e → Step s (record s { in_flight = none })
  stops : Step s (record s { pending = []; in_flight = none })

pub data Reach (s : System) : System → Type 0 where
  here : Reach s s
  next : {t u : System} → Reach s t → Step t u → Reach s u

abbrev pub empty : System
empty = record { rows = []; pending = []; in_flight = none }

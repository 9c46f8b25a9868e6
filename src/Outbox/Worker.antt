-- ===== src/Outbox/Worker.antt =====
-- backend/src/realtime/outbox_worker.rs: one attempt to send an entry, and the retry schedule.
-- backend/src/routes/outbox.rs: what the user may do with an entry. The SMTP send is an argument, its
-- outcome; so is whether each write to the database succeeded, where the code looks at that or
-- drops it.
use Prim.Native.Nat.{min}
use rav.Common.{
  ℕ, ◌+◌, ◌*◌, ◌-◌, ◌^◌, String, Bool, true, false, Option, none, some, List, [], ◌∷◌, ◌++◌, ◌&&◌,
  ltb, if◌then◌else◌, Text, Result, ok, err,
}
use rav.Outbox.{
  OutboxEntry, Content, Table, get, mark_sending, mark_retry, mark_failed, delete, requeue,
  is_sending,
}
use rav.Outbox.Errors.{AppError, is_retryable, display}

abbrev pub max_attempts : ℕ
max_attempts = 5

abbrev pub max_u64 : ℕ
max_u64 = 2 ^ 64 - 1

-- `30_u64.saturating_mul(1 << attempt_count.clamp(0, 6))`, capped at 1800 seconds.
unfoldable pub backoff_duration : ℕ → ℕ
backoff_duration attempt_count = min (min max_u64 (30 * 2 ^ min attempt_count 6)) 1800

-- What others see of the worker: a message handed to SMTP, and an event on the user's bus.
pub data Event : Type 0 where
  sends : String → Content → Event
  published : String → String → Option Text → Event

-- The first half of `process_entry`: the row is marked and the message handed over. The entry is the
-- one that `list_due` read.
unfoldable pub start : OutboxEntry → Table → Table × List Event
start entry rows = (
  mark_sending entry.id rows,
  published entry.id "sending" none ∷ sends entry.id entry.content ∷ [],
)

abbrev pub may_retry : AppError → OutboxEntry → Bool
may_retry e entry = is_retryable e && ltb (entry.attempt_count + 1) max_attempts

-- The second half: the `match` on what became of the send. `now` is the clock then.
unfoldable pub settle : OutboxEntry → Result (Unit {0}) AppError → ℕ → Table → Table × List Event
settle entry (ok _) now rows = ((delete entry.id rows).0, published entry.id "sent" none ∷ [])
settle entry (err e) now rows =
    if may_retry e entry
    then (mark_retry entry.id (now + backoff_duration entry.attempt_count) (display e) rows, [])
    else (
      mark_failed entry.id (display e) rows,
      published entry.id "failed" (some (display e)) ∷ [],
    )

-- `marked`: the first write succeeded; `written`: so did the last one, whose result is dropped.
unfoldable pub process_entry :
    Bool → Bool → OutboxEntry → Result (Unit {0}) AppError → ℕ → Table → Table × List Event
unfolding start settle
process_entry false written entry outcome now rows = (rows, [])
process_entry true written entry outcome now rows =
    let (rows₁, seen) = start entry rows in
    let (rows₂, told) = settle entry outcome now rows₁ in
    (if written then rows₂ else rows₁, seen ++ told)

pub data Refusal : Type 0 where
  not_found in_progress : Refusal

-- `DELETE /api/outbox/{id}`
unfoldable pub delete_handler : String → Table → Result Table Refusal
delete_handler id rows = elim (get id rows) [
  | none ↦ err not_found
  | some entry ↦ if is_sending entry.state then err in_progress else ok (delete id rows).0
]

-- `POST /api/outbox/{id}/retry`
unfoldable pub retry_handler : String → ℕ → Table → Result Table Refusal
retry_handler id now rows =
    let (rows', requeued) = requeue id now rows in if requeued then ok rows' else err not_found

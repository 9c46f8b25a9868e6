-- ===== src/Outbox/Queue/Keyed.antt =====
-- backend/src/realtime/outbox_worker.rs: ids stay distinct, whoever changes the table.
use rav.Common.{ℕ, ◌+◌, ◌≡◌, refl, String, arith, Result, ok, err}
use rav.Outbox.{
  OutboxEntry, NewOutboxEntry, Table, enqueue, list_due, mark_sending, mark_retry, mark_failed,
  new_row, sending_row, retry_row, failed_row, is_due,
}
use rav.Outbox.Errors.{AppError, display}
use rav.Outbox.Rows.{
  IsKeyed, update-IsKeyed, delete-IsKeyed, requeue-IsKeyed, append-IsKeyed, sort_by-IsKeyed,
  keep-IsKeyed, Absent-get,
}
use rav.Outbox.Worker.{start, settle, delete_handler, retry_handler, backoff_duration}
use rav.Outbox.Queue.{
  System, Step, enqueues, cancels, retries, polls, starts, skips, settles, loses, stops,
}

pub enqueue-IsKeyed :
    (e : NewOutboxEntry) (now : ℕ) (rows rows' : Table) (row : OutboxEntry)
    → enqueue e now rows ≡ ok (row, rows')
    → IsKeyed rows
    → IsKeyed rows'
unfolding enqueue
enqueue-IsKeyed e now rows rows' row h k =
    ground (arith, append-IsKeyed rows (new_row e now), Absent-get e.id rows)

pub delete_handler-IsKeyed :
    (id : String) (rows rows' : Table)
    → delete_handler id rows ≡ ok rows'
    → IsKeyed rows
    → IsKeyed rows'
unfolding delete_handler
delete_handler-IsKeyed id rows rows' h k = ground (arith, delete-IsKeyed id rows k)

pub retry_handler-IsKeyed :
    (id : String) (now : ℕ) (rows rows' : Table)
    → retry_handler id now rows ≡ ok rows'
    → IsKeyed rows
    → IsKeyed rows'
unfolding retry_handler
retry_handler-IsKeyed id now rows rows' h k = ground (arith, requeue-IsKeyed id now rows k)

pub start-IsKeyed : (e : OutboxEntry) (rows : Table) → IsKeyed rows → IsKeyed (start e rows).0
unfolding start mark_sending
start-IsKeyed e rows k = update-IsKeyed e.id sending_row rows (λ r. refl) k

pub settle-IsKeyed :
    (e : OutboxEntry) (outcome : Result (Unit {0}) AppError) (now : ℕ) (rows : Table)
    → IsKeyed rows
    → IsKeyed (settle e outcome now rows).0
unfolding settle mark_retry mark_failed
settle-IsKeyed e (ok _) now rows k = delete-IsKeyed e.id rows k
settle-IsKeyed e (err x) now rows k = ground (
  arith,
  update-IsKeyed e.id (retry_row (now + backoff_duration e.attempt_count) (display x)) rows
      (λ r. refl) k,
  update-IsKeyed e.id (failed_row (display x)) rows (λ r. refl) k,
)

pub Step-IsKeyed : {s t : System} → Step s t → IsKeyed s.rows → IsKeyed t.rows
Step-IsKeyed {s} (enqueues e now row rows h) k = enqueue-IsKeyed e now s.rows rows row h k
Step-IsKeyed {s} (cancels id rows h) k = delete_handler-IsKeyed id s.rows rows h k
Step-IsKeyed {s} (retries id now rows h) k = retry_handler-IsKeyed id now s.rows rows h k
Step-IsKeyed (polls now p f) k = k
Step-IsKeyed {s} (starts e es p f) k = start-IsKeyed e s.rows k
Step-IsKeyed (skips e es p f) k = k
Step-IsKeyed {s} (settles e outcome now f) k = settle-IsKeyed e outcome now s.rows k
Step-IsKeyed (loses e f) k = k
Step-IsKeyed stops k = k

pub list_due-IsKeyed : (now : ℕ) (rows : Table) → IsKeyed rows → IsKeyed (list_due now rows)
unfolding list_due
list_due-IsKeyed now rows k = sort_by-IsKeyed _ _ (keep-IsKeyed (is_due now) rows k)

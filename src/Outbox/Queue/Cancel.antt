-- ===== src/Outbox/Queue/Cancel.antt =====
-- backend/src/realtime/outbox_worker.rs and backend/src/routes/outbox.rs: what a request and a send do to
-- one entry.
use Prim.Native.Nat.{min}
use rav.Common.{
  ℕ, ◌+◌, ◌≤◌, ◌≡◌, ◌↔◌, refl, ◌∙◌, String, Bool, true, Option, none, some, ◌&&◌, zero, suc, arith,
  if◌then◌else◌, Result, ok, err, Memᴰ, str_eq, eq_iff, eq_refl, Option-cases, inl, inr, ltb,
}
use rav.Outbox.{
  scheduled, sending, failed, OutboxEntry, Table, get, delete, list_due, mark_sending, mark_retry,
  mark_failed, sending_row, retry_row, failed_row,
}
use rav.Outbox.Errors.{AppError, display, is_retryable}
use rav.Outbox.Rows.{IsKeyed, get_of_mem, get-update, get-delete}
use rav.Outbox.Queries.{list_due_iff}
use rav.Outbox.Worker.{
  sends, process_entry, delete_handler, backoff_duration, not_found, in_progress, max_attempts,
}

-- The bug: an entry that the worker has read as due, and that the user then cancels with success, is
-- handed to SMTP all the same.
pub cancelled_still_sent :
    (e : OutboxEntry) (polled now : ℕ) (written : Bool) (outcome : Result (Unit {0}) AppError)
    (rows : Table)
    → IsKeyed rows
    → Memᴰ e (list_due polled rows)
    → (rows' : Table) × (delete_handler e.id rows ≡ ok rows')
      × (get e.id rows' ≡ none)
      × Memᴰ (sends e.id e.content) (process_entry true written e outcome now rows').1
unfolding delete_handler process_entry
cancelled_still_sent e polled now written outcome rows keyed due =
    let (listed, (is_scheduled, _)) = ((list_due_iff polled rows).0 e).0 due in
    let found = get_of_mem e rows keyed listed in
    (
      (delete e.id rows).0,
      ground (arith, found, is_scheduled),
      get-delete e.id e.id rows ∙ rw (eq_refl e.id) refl,
      Memᴰ.tail (Memᴰ.head refl),
    )

-- A request to delete an entry is refused exactly if the entry is absent or being sent.
pub delete_handler_refused_iff :
    (id : String) (rows : Table)
    → ((delete_handler id rows ≡ err not_found) ↔ (get id rows ≡ none))
      × ((delete_handler id rows ≡ err in_progress)
          ↔ ((r : OutboxEntry) × (get id rows ≡ some r) × (r.state ≡ sending)))
unfolding delete_handler
delete_handler_refused_iff id rows = (
  ((λ h. ground arith), (λ h. ground arith)),
  (
    (λ h. elim (Option-cases (get id rows)) [
      | inl e ↦ absurd (ground arith)
      | inr (r, e) ↦ (r, e, ground arith)
    ]),
    (λ h. let (r, e, m) = h in ground (arith, e, m)),
  ),
)

-- The row of an entry after an attempt whose writes succeed: gone if the message went out, due
-- again after the backoff if the failure is worth a retry and attempts are left, failed otherwise.
abbrev pub settled : Result (Unit {0}) AppError → ℕ → OutboxEntry → Option OutboxEntry
settled (ok _) now r = none
settled (err x) now r =
    if is_retryable x && ltb (r.attempt_count + 1) max_attempts
    then some (record r {
      state = scheduled;
      send_after = now + backoff_duration r.attempt_count;
      attempt_count = r.attempt_count + 1;
      fail_reason = some (display x);
    })
    else some (record r { state = failed; fail_reason = some (display x) })

pub get-process_entry :
    (e : OutboxEntry) (outcome : Result (Unit {0}) AppError) (now : ℕ) (rows : Table) (id : String)
    → get e.id rows ≡ some e
    → get id (process_entry true true e outcome now rows).0
      ≡ (if str_eq e.id id then settled outcome now e else get id rows)
unfolding process_entry mark_sending mark_retry mark_failed
get-process_entry e (ok _) now rows id found = ground (
  arith,
  eq_iff e.id id,
  get-delete e.id id (mark_sending e.id rows),
  get-update e.id id sending_row rows (λ r. refl),
)
get-process_entry e (err x) now rows id found = ground (
  arith,
  eq_iff e.id id,
  get-update e.id id sending_row rows (λ r. refl),
  get-update e.id id (retry_row (now + backoff_duration e.attempt_count) (display x))
      (mark_sending e.id rows) (λ r. refl),
  get-update e.id id (failed_row (display x)) (mark_sending e.id rows) (λ r. refl),
)

-- The wait before a retry is between half a minute and half an hour, and no shorter than the last.
pub backoff_bounds :
    (n : ℕ)
    → (30 ≤ backoff_duration n)
      × (backoff_duration n ≤ 1800)
      × (backoff_duration n ≤ backoff_duration (n + 1))
unfolding backoff_duration
backoff_bounds zero = omega arith
backoff_bounds (suc zero) = omega arith
backoff_bounds (suc (suc zero)) = omega arith
backoff_bounds (suc (suc (suc zero))) = omega arith
backoff_bounds (suc (suc (suc (suc zero)))) = omega arith
backoff_bounds (suc (suc (suc (suc (suc zero))))) = omega arith
backoff_bounds (suc (suc (suc (suc (suc (suc n)))))) =
    let six = suc (suc (suc (suc (suc (suc n))))) in
    let here : min six 6 ≡ 6 = omega arith in
    let there : min (six + 1) 6 ≡ 6 = omega arith in rw (here, there) (omega arith)

-- ===== src/Outbox/Queue/Stuck.antt =====
-- backend/src/realtime/outbox_worker.rs: an entry whose worker stopped in the middle of a send.
use mathlib.Core.Option.{some-injective}
use rav.Common.{
  ℕ, ◌+◌, ◌≡◌, ◌≢◌, refl, ap, ◌∙◌, sym, String, some, [], ◌∷◌, arith, eq_iff, All, Result, ok, err,
  All-of_mem,
}
use rav.Outbox.{
  sending, OutboxEntry, NewOutboxEntry, Table, get, requeue, enqueue, list_due, mark_sending,
  mark_retry, mark_failed, retry_row, failed_row, sending_row, new_row,
}
use rav.Outbox.Rows.{get-update, get-delete, get-append, IsKeyed, get_of_mem}
use rav.Outbox.Queries.{list_due_iff}
use rav.Outbox.Queue.Keyed.{Step-IsKeyed}
use rav.Outbox.Errors.{AppError, display}
use rav.Outbox.Worker.{backoff_duration, start, settle, delete_handler, retry_handler}
use rav.Outbox.Queue.{
  System, Step, Reach, here, next, enqueues, cancels, retries, polls, starts, skips, settles, loses,
  stops,
}

-- The row `r` is marked as being sent, and no worker has it.
pub record IsStuck (r : OutboxEntry) (s : System) : Type 0 where
  pub held : get r.id s.rows ≡ some r
  pub marked : r.state ≡ sending
  pub not_pending : All (λ e. e.id ≢ r.id) s.pending
  pub not_flying : (e : OutboxEntry) → s.in_flight ≡ some e → e.id ≢ r.id

get-enqueue :
    (e : NewOutboxEntry) (now : ℕ) (rows rows' : Table) (row r : OutboxEntry) (id : String)
    → enqueue e now rows ≡ ok (row, rows')
    → get id rows ≡ some r
    → get id rows' ≡ some r
unfolding enqueue
get-enqueue e now rows rows' row r id h g = ground (arith, get-append id rows (new_row e now))

get-delete_handler :
    (id : String) (rows rows' : Table) (r : OutboxEntry)
    → delete_handler id rows ≡ ok rows'
    → get r.id rows ≡ some r
    → r.state ≡ sending
    → get r.id rows' ≡ some r
unfolding delete_handler
get-delete_handler id rows rows' r h g m = ground (arith, get-delete id r.id rows, eq_iff id r.id)

get-requeue :
    (id other : String) (now : ℕ) (rows : Table) (r : OutboxEntry)
    → get other rows ≡ some r
    → r.state ≡ sending
    → get other (requeue id now rows).0 ≡ some r
unfolding requeue get
get-requeue id other now [] r g m = g
get-requeue id other now (x ∷ rows) r g m =
    ground (arith, get-requeue id other now rows r, eq_iff x.id other)

get-retry_handler :
    (id other : String) (now : ℕ) (rows rows' : Table) (r : OutboxEntry)
    → retry_handler id now rows ≡ ok rows'
    → get other rows ≡ some r
    → r.state ≡ sending
    → get other rows' ≡ some r
unfolding retry_handler
get-retry_handler id other now rows rows' r h g m = ground (arith, get-requeue id other now rows r)

get-start :
    (e : OutboxEntry) (rows : Table) (other : String)
    → e.id ≢ other
    → get other (start e rows).0 ≡ get other rows
unfolding start mark_sending
get-start e rows other h =
    ground (arith, eq_iff e.id other, get-update e.id other sending_row rows (λ r. refl))

get-settle :
    (e : OutboxEntry) (outcome : Result (Unit {0}) AppError) (now : ℕ) (rows : Table)
    (other : String)
    → e.id ≢ other
    → get other (settle e outcome now rows).0 ≡ get other rows
unfolding settle mark_retry mark_failed
get-settle e (ok _) now rows other h = ground (arith, eq_iff e.id other, get-delete e.id other rows)
get-settle e (err x) now rows other h = ground (
  arith,
  eq_iff e.id other,
  get-update e.id other (retry_row (now + backoff_duration e.attempt_count) (display x)) rows
      (λ r. refl),
  get-update e.id other (failed_row (display x)) rows (λ r. refl),
)

due_not_stuck :
    (now : ℕ) (rows : Table) (r : OutboxEntry)
    → IsKeyed rows
    → get r.id rows ≡ some r
    → r.state ≡ sending
    → All (λ e. e.id ≢ r.id) (list_due now rows)
due_not_stuck now rows r k g m =
    All-of_mem (λ e. e.id ≢ r.id) (list_due now rows)
      λ e due same.
        let (listed, is_due) = ((list_due_iff now rows).0 e).0 due in
        let found = get_of_mem e rows k listed in
        let e≡r : some e ≡ some r = sym found ∙ ap (λ i. get i rows) same ∙ g in cc

-- A step of the system leaves a stuck row as it is, and no worker takes it.
Step-IsStuck :
    (r : OutboxEntry) {s t : System} → Step s t → IsKeyed s.rows → IsStuck r s → IsStuck r t
Step-IsStuck r {s} (enqueues e now row rows h) k v = record {
  held = get-enqueue e now s.rows rows row r r.id h v.held;
  marked = v.marked;
  not_pending = v.not_pending;
  not_flying = v.not_flying;
}
Step-IsStuck r {s} (cancels id rows h) k v = record {
  held = get-delete_handler id s.rows rows r h v.held v.marked;
  marked = v.marked;
  not_pending = v.not_pending;
  not_flying = v.not_flying;
}
Step-IsStuck r {s} (retries id now rows h) k v = record {
  held = get-retry_handler id r.id now s.rows rows r h v.held v.marked;
  marked = v.marked;
  not_pending = v.not_pending;
  not_flying = v.not_flying;
}
Step-IsStuck r {s} (polls now p f) k v = record {
  held = v.held;
  marked = v.marked;
  not_pending = due_not_stuck now s.rows r k v.held v.marked;
  not_flying = v.not_flying;
}
Step-IsStuck r {s} (starts e es p f) k v =
    let others : All (λ x. x.id ≢ r.id) (e ∷ es) = rw p at v.not_pending in
    record {
      held = get-start e s.rows r.id others.0 ∙ v.held;
      marked = v.marked;
      not_pending = others.1;
      not_flying =
          λ x q same. others.0 (ap (λ (y : OutboxEntry). y.id) (some-injective _ _ q) ∙ same);
    }
Step-IsStuck r {s} (skips e es p f) k v =
    let others : All (λ x. x.id ≢ r.id) (e ∷ es) = rw p at v.not_pending in
    record { held = v.held; marked = v.marked; not_pending = others.1; not_flying = v.not_flying }
Step-IsStuck r {s} (settles e outcome now f) k v = record {
  held = get-settle e outcome now s.rows r.id (v.not_flying e f) ∙ v.held;
  marked = v.marked;
  not_pending = v.not_pending;
  not_flying = λ x q. cc;
}
Step-IsStuck r (loses e f) k v = record {
  held = v.held;
  marked = v.marked;
  not_pending = v.not_pending;
  not_flying = λ x q. cc;
}
Step-IsStuck r stops k v = record {
  held = v.held;
  marked = v.marked;
  not_pending = tt;
  not_flying = λ x q. cc;
}

-- A row left as being sent by a worker that stopped stays so for ever: whatever requests and worker
-- cycles follow, it is never tried again, never cancelled and never requeued.
pub Reach-IsStuck :
    (r : OutboxEntry) {s t : System}
    → Reach s t
    → IsKeyed s.rows
    → IsStuck r s
    → IsStuck r t × IsKeyed t.rows
Reach-IsStuck r here k v = (v, k)
Reach-IsStuck r (next path step) k v =
    let (v', k') = Reach-IsStuck r path k v in (Step-IsStuck r step k' v', Step-IsKeyed step k')

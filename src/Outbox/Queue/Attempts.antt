-- ===== src/Outbox/Queue/Attempts.antt =====
-- backend/src/realtime/outbox_worker.rs: how often an entry is tried without the user's say.
use rav.Common.{
  ℕ, ◌+◌, ◌≤◌, ◌≡◌, refl, String, [], ◌∷◌, arith, Result, ok, err, All, All-append, All-keep,
  eq_iff, not, Text, ◌<◌, Bool-cases, inl, inr,
}
use rav.Outbox.{
  has_id, OutboxEntry, NewOutboxEntry, Table, update, delete, requeue, requeued, enqueue,
  mark_sending, mark_retry, mark_failed, new_row, sending_row, retry_row, failed_row,
}
use rav.Outbox.Errors.{AppError, display}
use rav.Outbox.Worker.{start, settle, may_retry, delete_handler, retry_handler}

-- A property of rows that a smaller attempt count keeps, and that a new row has.
pub record IsDownward (Q : OutboxEntry → Type 0) : Type 0 where
  pub down : (r r' : OutboxEntry) → r'.id ≡ r.id → r'.attempt_count ≤ r.attempt_count → Q r → Q r'
  pub fresh : (r : OutboxEntry) → r.attempt_count ≡ 0 → Q r

module _ (Q : OutboxEntry → Type 0) (d : IsDownward Q) where
  All-update :
      (id : String) (f : OutboxEntry → OutboxEntry) (rows : Table)
      → ((r : OutboxEntry) → r.id ≡ id → Q r → Q (f r))
      → All Q rows
      → All Q (update id f rows)
  unfolding update
  All-update id f [] h a = tt
  All-update id f (x ∷ rows) h a = ground (arith, eq_iff x.id id, h x, All-update id f rows h a.1)

  pub All-enqueue :
      (e : NewOutboxEntry) (now : ℕ) (rows rows' : Table) (row : OutboxEntry)
      → enqueue e now rows ≡ ok (row, rows')
      → All Q rows
      → All Q rows'
  unfolding enqueue
  All-enqueue e now rows rows' row h a =
      ground (arith, All-append Q rows (new_row e now ∷ []) a (d.fresh (new_row e now) refl, tt))

  pub All-delete_handler :
      (id : String) (rows rows' : Table)
      → delete_handler id rows ≡ ok rows'
      → All Q rows
      → All Q rows'
  unfolding delete_handler delete
  All-delete_handler id rows rows' h a = ground (arith, All-keep Q (λ r. not (has_id id r)) rows a)

  All-requeue : (id : String) (now : ℕ) (rows : Table) → All Q rows → All Q (requeue id now rows).0
  unfolding requeue
  All-requeue id now [] a = tt
  All-requeue id now (x ∷ rows) a =
      (d.down x (requeued id now x) (ground arith) (ground arith) a.0, All-requeue id now rows a.1)

  pub All-retry_handler :
      (id : String) (now : ℕ) (rows rows' : Table)
      → retry_handler id now rows ≡ ok rows'
      → All Q rows
      → All Q rows'
  unfolding retry_handler
  All-retry_handler id now rows rows' h a = ground (arith, All-requeue id now rows a)

  pub All-start : (e : OutboxEntry) (rows : Table) → All Q rows → All Q (start e rows).0
  unfolding start mark_sending
  All-start e rows a =
      All-update e.id sending_row rows (λ r _. d.down r (sending_row r) refl (omega arith)) a

-- A failed or retried send: `P` is what is known of the rows before it.
module _ (P Q : OutboxEntry → Type 0) (d : IsDownward Q)
    (weaken : (r : OutboxEntry) → P r → Q r) where
  All-update_to :
      (id : String) (f : OutboxEntry → OutboxEntry) (rows : Table)
      → ((r : OutboxEntry) → r.id ≡ id → P r → Q (f r))
      → All P rows
      → All Q (update id f rows)
  unfolding update
  All-update_to id f [] h a = tt
  All-update_to id f (x ∷ rows) h a =
      ground (arith, eq_iff x.id id, h x, weaken x a.0, All-update_to id f rows h a.1)

  All-weaken : (rows : Table) → All P rows → All Q rows
  All-weaken [] a = tt
  All-weaken (x ∷ rows) a = (weaken x a.0, All-weaken rows a.1)

  pub All-settle :
      (e : OutboxEntry) (outcome : Result (Unit {0}) AppError) (now : ℕ) (rows : Table)
      → ((r : OutboxEntry) (t : ℕ) (why : Text)
          → e.attempt_count + 1 < 5
          → r.id ≡ e.id
          → P r
          → Q (retry_row t why r))
      → All P rows
      → All Q (settle e outcome now rows).0
  unfolding settle mark_retry mark_failed delete
  All-settle e (ok _) now rows h a = All-keep Q (λ r. not (has_id e.id r)) rows (All-weaken rows a)
  All-settle e (err x) now rows h a = elim (Bool-cases (may_retry x e)) [
    | inl again ↦ rw again (
        All-update_to e.id (retry_row _ (display x)) rows (λ r. h r _ (display x) (ground arith)) a)
    | inr over ↦ rw over (
        All-update_to e.id (failed_row (display x)) rows
          (λ r _ p. d.down r (failed_row (display x) r) refl (omega arith) (weaken r p)) a)
  ]

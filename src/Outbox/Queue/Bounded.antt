-- ===== src/Outbox/Queue/Bounded.antt =====
-- backend/src/realtime/outbox_worker.rs: the bound on automatic attempts, in every reachable state.
use mathlib.Core.Option.{some-injective}
use native.Mathlib.Nat.{le_trans}
use rav.Common.{
  ℕ, ◌≤◌, ◌<◌, ◌≡◌, ◌≢◌, ap, sym, ◌∙◌, Option, none, some, List, [], ◌∷◌, ◌++◌, arith, Result, All,
  All-of_mem,
}
use rav.Outbox.{OutboxEntry, Table, get, list_due}
use rav.Outbox.Errors.{AppError}
use rav.Outbox.Rows.{IsKeyed, get_of_mem}
use rav.Outbox.Queries.{list_due_iff}
use rav.Outbox.Worker.{settle, max_attempts}
use rav.Outbox.Queue.{
  System, Step, Reach, here, next, enqueues, cancels, retries, polls, starts, skips, settles, loses,
  stops, empty,
}
use rav.Outbox.Queue.Keyed.{Step-IsKeyed, list_due-IsKeyed}
use rav.Outbox.Queue.Attempts.{
  IsDownward, All-enqueue, All-delete_handler, All-retry_handler, All-start, All-settle,
}

-- No row has been tried more often than its count allows for one more automatic attempt.
abbrev pub IsLow : OutboxEntry → Type 0
IsLow r = r.attempt_count < max_attempts

IsLow-IsDownward : IsDownward IsLow
IsLow-IsDownward = record { down = λ r r' same le low. omega arith; fresh = λ r e. omega arith }

-- The worker's copy of an entry has at least the attempts of its row.
abbrev IsCovered : OutboxEntry → OutboxEntry → Type 0
IsCovered e r = r.id ≡ e.id → r.attempt_count ≤ e.attempt_count

IsCovered-IsDownward : (e : OutboxEntry) → IsDownward (IsCovered e)
IsCovered-IsDownward e = record {
  down = λ r r' same le c at. le_trans le (c (sym same ∙ at));
  fresh = λ r e0 at. omega arith;
}

abbrev flying : Option OutboxEntry → List OutboxEntry
flying none = []
flying (some e) = e ∷ []

abbrev in_play : System → List OutboxEntry
in_play s = flying s.in_flight ++ s.pending

abbrev Covered : Table → List OutboxEntry → Type 0
Covered rows = All (λ e. All (IsCovered e) rows)

record Inv (s : System) : Type 0 where
  keyed : IsKeyed s.rows
  low : All IsLow s.rows
  covered : Covered s.rows (in_play s)
  distinct : IsKeyed (in_play s)

-- What changes the rows, and keeps every downward property, keeps the copies covered.
Covered-mono :
    (rows rows' : Table) (es : List OutboxEntry)
    → ((e : OutboxEntry) → All (IsCovered e) rows → All (IsCovered e) rows')
    → Covered rows es
    → Covered rows' es
Covered-mono rows rows' [] h c = tt
Covered-mono rows rows' (e ∷ es) h c = (h e c.0, Covered-mono rows rows' es h c.1)

Covered-due : (now : ℕ) (rows : Table) → IsKeyed rows → Covered rows (list_due now rows)
Covered-due now rows k = All-of_mem _ (list_due now rows) λ e due.
    let (listed, _) = ((list_due_iff now rows).0 e).0 due in
    All-of_mem (IsCovered e) rows λ r m same.
      let one : some r ≡ some e =
        sym (get_of_mem r rows k m) ∙ ap (λ i. get i rows) same ∙ get_of_mem e rows k listed in
      let eq = ap (λ (x : OutboxEntry). x.attempt_count) (some-injective _ _ one) in omega arith

-- A retry of `e` leaves the copies with other ids covered.
Covered-settle :
    (e : OutboxEntry) (outcome : Result (Unit {0}) AppError) (now : ℕ) (rows : Table)
    (es : List OutboxEntry)
    → All (λ x. e.id ≢ x.id) es
    → Covered rows es
    → Covered (settle e outcome now rows).0 es
Covered-settle e outcome now rows [] h c = tt
Covered-settle e outcome now rows (x ∷ es) h c = (
  All-settle (IsCovered x) (IsCovered x) (IsCovered-IsDownward x) (λ r c. c) e outcome now rows
      (λ r t why lt at q same. absurd (h.0 (sym at ∙ same))) c.0,
  Covered-settle e outcome now rows es h.1 c.1,
)

All-both :
    (P Q : OutboxEntry → Type 0) (rows : Table)
    → All P rows
    → All Q rows
    → All (λ r. P r × Q r) rows
All-both P Q [] p q = tt
All-both P Q (r ∷ rows) p q = ((p.0, q.0), All-both P Q rows p.1 q.1)

IsLow-settle :
    (e : OutboxEntry) (outcome : Result (Unit {0}) AppError) (now : ℕ) (rows : Table)
    → All (IsCovered e) rows
    → All IsLow rows
    → All IsLow (settle e outcome now rows).0
IsLow-settle e outcome now rows c low =
    All-settle (λ r. IsLow r × IsCovered e r) IsLow IsLow-IsDownward (λ r h. h.0) e outcome now rows
      (λ r t why lt at h. let le = h.1 at in omega arith) (All-both IsLow (IsCovered e) rows low c)

Step-Inv : {s t : System} → Step s t → Inv s → Inv t
Step-Inv {s} (enqueues e now row rows h) v = record {
  keyed = Step-IsKeyed {s = s} (enqueues e now row rows h) v.keyed;
  low = All-enqueue IsLow IsLow-IsDownward e now s.rows rows row h v.low;
  covered =
      Covered-mono s.rows rows (in_play s)
        (λ x. All-enqueue (IsCovered x) (IsCovered-IsDownward x) e now s.rows rows row h) v.covered;
  distinct = v.distinct;
}
Step-Inv {s} (cancels id rows h) v = record {
  keyed = Step-IsKeyed {s = s} (cancels id rows h) v.keyed;
  low = All-delete_handler IsLow IsLow-IsDownward id s.rows rows h v.low;
  covered =
      Covered-mono s.rows rows (in_play s)
        (λ x. All-delete_handler (IsCovered x) (IsCovered-IsDownward x) id s.rows rows h) v.covered;
  distinct = v.distinct;
}
Step-Inv {s} (retries id now rows h) v = record {
  keyed = Step-IsKeyed {s = s} (retries id now rows h) v.keyed;
  low = All-retry_handler IsLow IsLow-IsDownward id now s.rows rows h v.low;
  covered =
      Covered-mono s.rows rows (in_play s)
        (λ x. All-retry_handler (IsCovered x) (IsCovered-IsDownward x) id now s.rows rows h)
        v.covered;
  distinct = v.distinct;
}
Step-Inv {s} (polls now p f) v = record {
  keyed = v.keyed;
  low = v.low;
  covered = rw f (Covered-due now s.rows v.keyed);
  distinct = rw f (list_due-IsKeyed now s.rows v.keyed);
}
Step-Inv {s} (starts e es p f) v =
    let covered : Covered s.rows (e ∷ es) = rw (p, f) at v.covered in
    let distinct : IsKeyed (e ∷ es) = rw (p, f) at v.distinct in
    record {
      keyed = Step-IsKeyed {s = s} (starts e es p f) v.keyed;
      low = All-start IsLow IsLow-IsDownward e s.rows v.low;
      covered =
          Covered-mono s.rows _ (e ∷ es)
            (λ x. All-start (IsCovered x) (IsCovered-IsDownward x) e s.rows) covered;
      distinct = distinct;
    }
Step-Inv {s} (skips e es p f) v =
    let covered : Covered s.rows (e ∷ es) = rw (p, f) at v.covered in
    let distinct : IsKeyed (e ∷ es) = rw (p, f) at v.distinct in
    record { keyed = v.keyed; low = v.low; covered = rw f covered.1; distinct = rw f distinct.1 }
Step-Inv {s} (settles e outcome now f) v =
    let covered : Covered s.rows (e ∷ s.pending) = rw f at v.covered in
    let distinct : IsKeyed (e ∷ s.pending) = rw f at v.distinct in
    record {
      keyed = Step-IsKeyed {s = s} (settles e outcome now f) v.keyed;
      low = IsLow-settle e outcome now s.rows covered.0 v.low;
      covered = Covered-settle e outcome now s.rows s.pending distinct.0 covered.1;
      distinct = distinct.1;
    }
Step-Inv {s} (loses e f) v =
    let covered : Covered s.rows (e ∷ s.pending) = rw f at v.covered in
    let distinct : IsKeyed (e ∷ s.pending) = rw f at v.distinct in
    record { keyed = v.keyed; low = v.low; covered = covered.1; distinct = distinct.1 }
Step-Inv stops v = record { keyed = v.keyed; low = v.low; covered = tt; distinct = tt }

Reach-Inv : {s t : System} → Reach s t → Inv s → Inv t
Reach-Inv here v = v
Reach-Inv (next path step) v = Step-Inv step (Reach-Inv path v)

-- In every state that requests and worker cycles, interrupted or not, can lead to from an empty
-- table, the ids are distinct and no entry counts five automatic attempts or more.
pub attempts_bounded :
    {t : System} → Reach empty t → IsKeyed t.rows × All (λ r. r.attempt_count < max_attempts) t.rows
attempts_bounded path =
    let v = Reach-Inv path (record { keyed = tt; low = tt; covered = tt; distinct = tt }) in
    (v.keyed, v.low)

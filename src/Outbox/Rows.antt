-- ===== src/Outbox/Rows.antt =====
-- backend/src/db/outbox.rs: reading a row back after each change.
use mathlib.Core.Option
use rav.Common.{
  ◌≡◌, ◌≢◌, refl, String, Bool, none, some, [], ◌∷◌, ◌++◌, arith, if◌then◌else◌, str_eq, eq_iff,
  eq_refl, All, All-keep, All-append, All-mem, Memᴰ, All-insert_by, All-sort_by, insert_by, sort_by,
  sym, subst, ℕ, keep,
}
use rav.Outbox.{OutboxEntry, Table, get, update, delete, requeue, requeued}

-- No two rows have one id: the table's primary key.
abbrev pub IsKeyed : Table → Type 0
IsKeyed [] = Unit
IsKeyed (r ∷ rows) = All (λ x. r.id ≢ x.id) rows × IsKeyed rows

abbrev pub Absent : String → Table → Type 0
Absent id rows = All (λ r. r.id ≢ id) rows

pub get-id : (id : String) (rows : Table) (r : OutboxEntry) → get id rows ≡ some r → r.id ≡ id
unfolding get
get-id id [] r e = cc
get-id id (x ∷ rows) r e = ground (arith, eq_iff x.id id, get-id id rows r)

pub Absent-get : (id : String) (rows : Table) → get id rows ≡ none → Absent id rows
unfolding get
Absent-get id [] e = tt
Absent-get id (x ∷ rows) e = ground (arith, eq_iff x.id id, Absent-get id rows)

-- A change of the row `id` that keeps its id shows at `id` and nowhere else.
pub get-update :
    (id other : String) (f : OutboxEntry → OutboxEntry) (rows : Table)
    → ((r : OutboxEntry) → (f r).id ≡ r.id)
    → get other (update id f rows)
      ≡ (if str_eq id other then Option.map f (get other rows) else get other rows)
unfolding get update
get-update id other f [] h = ground arith
get-update id other f (x ∷ rows) h = ground (
  arith,
  h x,
  eq_iff id other,
  eq_iff x.id id,
  eq_iff x.id other,
  eq_iff (f x).id other,
  get-update id other f rows h,
)

pub get-delete :
    (id other : String) (rows : Table)
    → get other (delete id rows).0 ≡ (if str_eq id other then none else get other rows)
unfolding get delete
get-delete id other [] = ground arith
get-delete id other (x ∷ rows) =
    ground (arith, eq_iff id other, eq_iff x.id id, eq_iff x.id other, get-delete id other rows)

pub get-append :
    (id : String) (rows : Table) (r : OutboxEntry)
    → get id (rows ++ r ∷ [])
      ≡ elim (get id rows) [ none ↦ if str_eq r.id id then some r else none | some x ↦ some x ]
unfolding get
get-append id [] r = refl
get-append id (x ∷ rows) r = ground (arith, get-append id rows r)

Absent-update :
    (id other : String) (f : OutboxEntry → OutboxEntry) (rows : Table)
    → ((r : OutboxEntry) → (f r).id ≡ r.id)
    → All (λ x. other ≢ x.id) rows
    → All (λ x. other ≢ x.id) (update id f rows)
unfolding update
Absent-update id other f [] h a = tt
Absent-update id other f (x ∷ rows) h a = ground (arith, h x, Absent-update id other f rows h a.1)

pub update-IsKeyed :
    (id : String) (f : OutboxEntry → OutboxEntry) (rows : Table)
    → ((r : OutboxEntry) → (f r).id ≡ r.id)
    → IsKeyed rows
    → IsKeyed (update id f rows)
unfolding update
update-IsKeyed id f [] h k = tt
update-IsKeyed id f (x ∷ rows) h k =
    let same : (if str_eq x.id id then f x else x).id ≡ x.id = ground (arith, h x) in
    (
      subst (λ i. All (λ y. i ≢ y.id) (update id f rows)) (sym same)
          (Absent-update id x.id f rows h k.0),
      update-IsKeyed id f rows h k.1,
    )

pub keep-IsKeyed : (p : OutboxEntry → Bool) (rows : Table) → IsKeyed rows → IsKeyed (keep p rows)
keep-IsKeyed p [] k = tt
keep-IsKeyed p (x ∷ rows) k =
    ground (arith, keep-IsKeyed p rows k.1, All-keep (λ y. x.id ≢ y.id) p rows k.0)

pub delete-IsKeyed : (id : String) (rows : Table) → IsKeyed rows → IsKeyed (delete id rows).0
unfolding delete
delete-IsKeyed id rows k = keep-IsKeyed _ rows k

All-requeue :
    (id other : String) (now : ℕ) (rows : Table)
    → All (λ x. other ≢ x.id) rows
    → All (λ x. other ≢ x.id) (requeue id now rows).0
unfolding requeue
All-requeue id other now [] a = tt
All-requeue id other now (x ∷ rows) a = ground (arith, All-requeue id other now rows a.1)

pub requeue-IsKeyed :
    (id : String) (now : ℕ) (rows : Table) → IsKeyed rows → IsKeyed (requeue id now rows).0
unfolding requeue
requeue-IsKeyed id now [] k = tt
requeue-IsKeyed id now (x ∷ rows) k =
    let same : (requeued id now x).id ≡ x.id = ground arith in
    (
      subst (λ i. All (λ y. i ≢ y.id) (requeue id now rows).0) (sym same)
          (All-requeue id x.id now rows k.0),
      requeue-IsKeyed id now rows k.1,
    )

pub append-IsKeyed :
    (rows : Table) (r : OutboxEntry) → Absent r.id rows → IsKeyed rows → IsKeyed (rows ++ r ∷ [])
append-IsKeyed [] r a k = (tt, tt)
append-IsKeyed (x ∷ rows) r a k =
    (All-append (λ y. x.id ≢ y.id) rows (r ∷ []) k.0 (a.0, tt), append-IsKeyed rows r a.1 k.1)

insert_by-IsKeyed :
    (key : OutboxEntry → ℕ) (r : OutboxEntry) (rows : Table)
    → All (λ y. r.id ≢ y.id) rows
    → IsKeyed rows
    → IsKeyed (insert_by key r rows)
unfolding insert_by
insert_by-IsKeyed key r [] a k = (tt, tt)
insert_by-IsKeyed key r (x ∷ rows) a k = ground (
  arith,
  insert_by-IsKeyed key r rows a.1 k.1,
  All-insert_by key (λ y. x.id ≢ y.id) r rows (λ e. a.0 (sym e)) k.0,
)

pub sort_by-IsKeyed :
    (key : OutboxEntry → ℕ) (rows : Table) → IsKeyed rows → IsKeyed (sort_by key rows)
unfolding sort_by
sort_by-IsKeyed key [] k = tt
sort_by-IsKeyed key (x ∷ rows) k =
    insert_by-IsKeyed key x (sort_by key rows) (All-sort_by key (λ y. x.id ≢ y.id) rows k.0)
      (sort_by-IsKeyed key rows k.1)

-- In a keyed table the row of an id is the only one with that id.
pub get_of_mem :
    (r : OutboxEntry) (rows : Table) → IsKeyed rows → Memᴰ r rows → get r.id rows ≡ some r
unfolding get
get_of_mem r [] k m = elim m [ ]
get_of_mem r (x ∷ rows) k (Memᴰ.head e) = rw (e, eq_refl x.id) refl
get_of_mem r (x ∷ rows) k (Memᴰ.tail m) =
    let other = All-mem (λ y. x.id ≢ y.id) rows r k.0 m in
    ground (arith, eq_iff x.id r.id, get_of_mem r rows k.1 m)

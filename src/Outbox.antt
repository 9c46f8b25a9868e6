-- ===== src/Outbox.antt =====
-- backend/src/db/outbox.rs: the `outbox` table of a user. A row is a record, the table the list of its
-- rows in insertion order; a time stamp is its number of seconds, which orders as the fixed text
-- format does; the address columns are the lists that their JSON text stands for.
pub mod Rows
pub mod Queries
pub mod Errors
pub mod Worker
pub mod Queue
pub mod Tests
use rav.Common.{
  ℕ, suc, ◌+◌, ◌≡◌, String, Bool, true, false, Option, none, some, List, [], ◌∷◌, ◌++◌, map, ◌&&◌,
  ◌||◌, leb, if◌then◌else◌, str_eq, keep, any, sort_by, Text, Result, ok, err, ok_or, ◌>>=◌, not,
}

-- `outbox.state`. A sent entry is deleted, so no row has a state `sent`.
pub data State : Type 0 where
  scheduled sending failed : State

-- What the user wrote: the columns that no operation changes.
pub record Content : Type 0 where
  pub draft_id : Option String
  pub to_addrs : List String
  pub cc_addrs : List String
  pub bcc_addrs : List String
  pub subject : String
  pub text_body : String
  pub html_body : Option String
  pub in_reply_to : Option String
  pub references_hdr : Option String
  pub from_identity_id : Option ℕ
  pub pgp_json : Option String

pub record OutboxEntry : Type 0 where
  pub id : String
  pub content : Content
  pub state : State
  pub fail_reason : Option Text
  pub attempt_count : ℕ
  pub created_at : ℕ
  pub send_after : ℕ

pub record NewOutboxEntry : Type 0 where
  pub id : String
  pub content : Content
  pub send_after : ℕ

abbrev pub Table : Type 0
Table = List OutboxEntry

pub data DbError : Type 0 where
  constraint_failed vanished : DbError

abbrev pub is_scheduled : State → Bool
is_scheduled scheduled = true
is_scheduled _ = false

abbrev pub is_sending : State → Bool
is_sending sending = true
is_sending _ = false

abbrev pub is_failed : State → Bool
is_failed failed = true
is_failed _ = false

-- `SELECT … WHERE id = ?1`
unfoldable pub get : String → Table → Option OutboxEntry
get id [] = none
get id (r ∷ rows) = if str_eq r.id id then some r else get id rows

-- `UPDATE … WHERE id = ?1`
unfoldable pub update : String → (OutboxEntry → OutboxEntry) → Table → Table
update id f [] = []
update id f (r ∷ rows) = (if str_eq r.id id then f r else r) ∷ update id f rows

-- The defaults of the columns that the `INSERT` does not name.
abbrev pub new_row : NewOutboxEntry → ℕ → OutboxEntry
new_row e now = record {
  id = e.id;
  content = e.content;
  state = scheduled;
  fail_reason = none;
  attempt_count = 0;
  created_at = now;
  send_after = e.send_after;
}

-- `id` is the primary key.
unfoldable pub enqueue : NewOutboxEntry → ℕ → Table → Result (OutboxEntry × Table) DbError
unfolding get
enqueue e now rows = elim (get e.id rows) [
  | some _ ↦ err constraint_failed
  | none ↦ do
    let rows' = rows ++ new_row e now ∷ []
    row ← ok_or (get e.id rows') vanished
    ok (row, rows')
]

-- The three states of the `IN` list.
abbrev is_visible : State → Bool
is_visible state = is_scheduled state || (is_sending state || is_failed state)

unfoldable pub list_visible : Table → List OutboxEntry
list_visible rows = sort_by (λ r. r.created_at) (keep (λ r. is_visible r.state) rows)

abbrev pub is_due : ℕ → OutboxEntry → Bool
is_due now r = is_scheduled r.state && leb r.send_after now

unfoldable pub list_due : ℕ → Table → List OutboxEntry
list_due now rows = sort_by (λ r. r.send_after) (keep (is_due now) rows)

-- `MIN`, which passes over an absent value.
abbrev pub least : ℕ → Option ℕ → ℕ
least t none = t
least t (some u) = if leb t u then t else u

-- `SELECT MIN(send_after) … WHERE state = 'scheduled'`
unfoldable pub next_send_after : Table → Option ℕ
next_send_after [] = none
next_send_after (r ∷ rows) =
    if is_scheduled r.state
    then some (least r.send_after (next_send_after rows))
    else next_send_after rows

abbrev pub sending_row : OutboxEntry → OutboxEntry
sending_row r = record r { state = sending }

unfoldable pub mark_sending : String → Table → Table
unfolding update
mark_sending id = update id sending_row

abbrev pub retry_row : ℕ → Text → OutboxEntry → OutboxEntry
retry_row next_send_after reason r = record r {
  state = scheduled;
  send_after = next_send_after;
  attempt_count = r.attempt_count + 1;
  fail_reason = some reason;
}

unfoldable pub mark_retry : String → ℕ → Text → Table → Table
unfolding update
mark_retry id next_send_after reason = update id (retry_row next_send_after reason)

abbrev pub failed_row : Text → OutboxEntry → OutboxEntry
failed_row reason r = record r { state = failed; fail_reason = some reason }

unfoldable pub mark_failed : String → Text → Table → Table
unfolding update
mark_failed id reason = update id (failed_row reason)

abbrev pub has_id : String → OutboxEntry → Bool
has_id id r = str_eq r.id id

-- The new table, and whether a row was deleted.
unfoldable pub delete : String → Table → Table × Bool
delete id rows = (keep (λ r. not (has_id id r)) rows, any (has_id id) rows)

abbrev pub can_requeue : String → OutboxEntry → Bool
can_requeue id r = has_id id r && is_failed r.state

abbrev pub requeued : String → ℕ → OutboxEntry → OutboxEntry
requeued id send_after r =
    if can_requeue id r
    then record r {
      state = scheduled;
      send_after = send_after;
      attempt_count = 0;
      fail_reason = none;
    }
    else r

-- The new table, and whether a row was changed.
unfoldable pub requeue : String → ℕ → Table → Table × Bool
requeue id send_after rows = (map (requeued id send_after) rows, any (can_requeue id) rows)

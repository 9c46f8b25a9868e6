-- ===== src/Outbox/Tests.antt =====
-- The outbox on concrete tables.
use rav.Common.{◌<◌, ◌≡◌, refl, true, none, some, [], ◌∷◌, ok, err, Memᴰ, All, codes, sort_by}
use rav.Outbox.{
  sending, Content, OutboxEntry, NewOutboxEntry, Table, get, update, delete, enqueue, list_due,
  next_send_after, new_row, mark_sending, mark_retry, mark_failed,
}
use rav.Outbox.Errors.{service_unavailable, is_retryable, display}
use rav.Outbox.Rows.{IsKeyed}
use rav.Outbox.Worker.{sends, process_entry, delete_handler, backoff_duration}
use rav.Outbox.Queue.{System, Reach, here, next, enqueues, stops, empty}
use rav.Outbox.Queue.Stuck.{IsStuck, Reach-IsStuck}
use rav.Outbox.Queue.Bounded.{attempts_bounded}
use rav.Outbox.Queue.Cancel.{cancelled_still_sent, get-process_entry}

abbrev content : Content
content = record {
  draft_id = none;
  to_addrs = "bob@example.com" ∷ [];
  cc_addrs = [];
  bcc_addrs = [];
  subject = "Hello";
  text_body = "Body";
  html_body = none;
  in_reply_to = none;
  references_hdr = none;
  from_identity_id = none;
  pgp_json = none;
}

abbrev order : NewOutboxEntry
order = record { id = "id-1"; content = content; send_after = 5 }

abbrev entry : OutboxEntry
entry = new_row order 0

abbrev one_row : Table
one_row = entry ∷ []

outbox : Unit {0}
unfolding sort_by get update delete enqueue list_due next_send_after mark_sending mark_retry
    mark_failed process_entry delete_handler backoff_duration is_retryable
outbox = tt

not_due_before : list_due 4 one_row ≡ []
unfolding outbox
not_due_before = refl

due_after : list_due 10 one_row ≡ one_row
unfolding outbox
due_after = refl

backoffs : (backoff_duration 0 ≡ 30) × (backoff_duration 4 ≡ 480) × (backoff_duration 9 ≡ 1800)
unfolding outbox
backoffs = (refl, refl, refl)

enqueued : Reach empty (record { rows = one_row; pending = []; in_flight = none })
unfolding outbox
enqueued = next here (enqueues order 0 entry one_row refl)

entry_due : Memᴰ entry (list_due 10 one_row)
unfolding outbox
entry_due = Memᴰ.head refl

attempts_bounded_example : IsKeyed one_row × All (λ r. r.attempt_count < 5) one_row
attempts_bounded_example = attempts_bounded enqueued

-- The row of `entry` after its worker stopped in the middle of the send.
abbrev marked : OutboxEntry
marked = record entry { state = sending }

abbrev left_over : System
left_over = record { rows = marked ∷ []; pending = []; in_flight = none }

left_over-IsStuck : IsStuck marked left_over
unfolding outbox
left_over-IsStuck = record { held = refl; marked = refl; not_pending = tt; not_flying = λ e f. cc }

stopped : Reach left_over left_over
stopped = next here stops

Reach-IsStuck_example : IsStuck marked left_over × IsKeyed (marked ∷ [])
Reach-IsStuck_example = Reach-IsStuck marked stopped (tt, tt) left_over-IsStuck

cancelled_still_sent_example :
    (rows' : Table) × (delete_handler "id-1" one_row ≡ ok rows')
    × (get "id-1" rows' ≡ none)
    × Memᴰ (sends "id-1" content) (process_entry true true entry (ok tt) 20 rows').1
cancelled_still_sent_example =
    cancelled_still_sent entry 10 20 true (ok tt) one_row (tt, tt) entry_due

get-process_entry_example :
    get "id-1"
      (process_entry true true entry (err (service_unavailable (codes "busy"))) 20 one_row).0
    ≡ some (record entry {
      send_after = 50;
      attempt_count = 1;
      fail_reason = some (codes "[SERVICE_UNAVAILABLE] busy");
    })
unfolding outbox display
get-process_entry_example =
    get-process_entry entry (err (service_unavailable (codes "busy"))) 20 one_row "id-1" refl

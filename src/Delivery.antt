-- ===== src/Delivery.antt =====
-- backend/src/realtime/idle.rs: what the in-app filters do to one new message, rule by rule and action
-- by action. An operation on the mail server or the SMTP server is an entry of a log, newest first; the
-- cached copies that follow a success are left out. Whether an operation succeeds, after those before
-- it, is a parameter.
pub mod Once
pub mod Skipped
mod Tests
use rav.Common.{
  String, Bool, true, false, ◌&&◌, Option, none, some, List, [], ◌∷◌, if◌then◌else◌, str_eq, Text,
  codes,
}
use rav.Filters.{FilterAction, FilterRule}
use rav.Sieve.Rules.{is_sieve_capable}

pub data Operation : Type 0 where
  add_flags : Text → Operation
  move_message : Text → Operation
  add_tag : Text → Operation
  send_message : Text → Operation

abbrev pub Log : Type 0
Log = List Operation

-- The configuration that the loop reads, and the outcome of an operation after those of a log.
pub record Session : Type 0 where
  pub sieve_active : Bool
  pub smtp_configured : Bool
  pub succeeds : Log → Operation → Bool

-- What a loop does after a turn: nothing once the message is removed.
abbrev pub unless_removed : (Log → Bool × Log) → Bool × Log → Bool × Log
unless_removed next (true, after) = (true, after)
unless_removed next (false, after) = next after

module _ (s : Session) where
  -- A move: the message is out of INBOX if it succeeds.
  abbrev pub moved_to : Text → Log → Bool × Log
  moved_to target log = (s.succeeds log (move_message target), move_message target ∷ log)

  abbrev pub given_value : (Text → Log → Bool × Log) → Option Text → Log → Bool × Log
  given_value f none log = (false, log)
  given_value f (some value) log = f value log

  -- One turn of the loop over the actions: whether the message was removed, and the log after it.
  unfoldable pub run_action : FilterAction → Log → Bool × Log
  run_action action log =
      if str_eq action.action_type "mark_read"
      then (false, add_flags (codes "\\Seen") ∷ log)
      else if str_eq action.action_type "mark_starred"
      then (false, add_flags (codes "\\Flagged") ∷ log)
      else if str_eq action.action_type "move"
      then given_value moved_to action.action_value log
      else if str_eq action.action_type "delete"
      then moved_to (codes "Trash") log
      else if str_eq action.action_type "tag"
      then given_value (λ tag l. (false, add_tag tag ∷ l)) action.action_value log
      else if str_eq action.action_type "forward"
      then given_value (λ to l. (false, if s.smtp_configured then send_message to ∷ l else l))
          action.action_value log
      else (false, log)

  -- The loop over the actions; a removal is the jump to the next message.
  unfoldable pub run_actions : List FilterAction → Log → Bool × Log
  run_actions [] log = (false, log)
  run_actions (action ∷ actions) log = unless_removed (run_actions actions) (run_action action log)

  -- The loop over the matched rules.
  unfoldable pub run_rules : List FilterRule → Log → Bool × Log
  run_rules [] log = (false, log)
  run_rules (rule ∷ rules) log =
      if s.sieve_active && is_sieve_capable rule
      then run_rules rules log
      else unless_removed
          (λ after. if rule.stop_processing then (false, after) else run_rules rules after)
          (run_actions rule.actions log)

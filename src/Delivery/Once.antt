-- ===== src/Delivery/Once.antt =====
-- backend/src/realtime/idle.rs: a message that a filter moved away is left alone.
use rav.Common.{
  ◌≡◌, refl, inl, inr, Bool, true, false, ◌&&◌, Option, none, some, List, [], ◌∷◌, Bool-cases, Text,
  str_eq, codes, if◌then◌else◌,
}
use rav.Filters.{FilterAction, FilterRule}
use rav.Sieve.Rules.{is_sieve_capable}
use rav.Delivery.{
  Operation, add_flags, move_message, add_tag, send_message, Log, Session, moved_to, given_value,
  unless_removed, run_action, run_actions, run_rules,
}

module _ (s : Session) where
  -- The operation took the message out of INBOX.
  abbrev pub removes : Log → Operation → Bool
  removes log (move_message target) = s.succeeds log (move_message target)
  removes log (add_flags flag) = false
  removes log (add_tag tag) = false
  removes log (send_message to) = false

  -- No operation of a log took the message out of INBOX.
  abbrev pub InInbox : Log → Type 0
  InInbox [] = Unit
  InInbox (op ∷ log) = (removes log op ≡ false) × InInbox log

  -- What a run answers, and the log it leaves: if the message was not removed it is in INBOX after all
  -- the operations; if it was, the last operation did it, and none before.
  abbrev pub IsFaithful : Bool × Log → Type 0
  IsFaithful (false, log) = InInbox log
  IsFaithful (true, []) = ⊥
  IsFaithful (true, op ∷ log) = (removes log op ≡ true) × InInbox log

  moved-IsFaithful :
      (target : Text) (log : Log)
      → InInbox log
      → IsFaithful (s.succeeds log (move_message target), move_message target ∷ log)
  moved-IsFaithful target log h = elim (Bool-cases (s.succeeds log (move_message target))) [
    | inl e ↦ rw e (e, h)
    | inr e ↦ rw e (e, h)
  ]

  if-IsFaithful :
      (b : Bool) (x y : Bool × Log) → IsFaithful x → IsFaithful y → IsFaithful (if b then x else y)
  if-IsFaithful true x y hx hy = hx
  if-IsFaithful false x y hx hy = hy

  given_value-IsFaithful :
      (f : Text → Log → Bool × Log) (value : Option Text) (log : Log)
      → InInbox log
      → ((text : Text) → IsFaithful (f text log))
      → IsFaithful (given_value s f value log)
  given_value-IsFaithful f none log h hf = h
  given_value-IsFaithful f (some text) log h hf = hf text

  run_action-IsFaithful :
      (action : FilterAction) (log : Log) → InInbox log → IsFaithful (run_action s action log)
  unfolding run_action
  run_action-IsFaithful action log h = elim (Bool-cases (str_eq action.action_type "mark_read")) [
    | inl e ↦ rw e ((refl, h))
    | inr e ↦ rw e (elim (Bool-cases (str_eq action.action_type "mark_starred")) [
      | inl e ↦ rw e ((refl, h))
      | inr e ↦ rw e (elim (Bool-cases (str_eq action.action_type "move")) [
        | inl e ↦ rw e (
            given_value-IsFaithful (moved_to s) action.action_value log h
              (λ t. moved-IsFaithful t log h))
        | inr e ↦ rw e (elim (Bool-cases (str_eq action.action_type "delete")) [
          | inl e ↦ rw e (moved-IsFaithful (codes "Trash") log h)
          | inr e ↦ rw e (elim (Bool-cases (str_eq action.action_type "tag")) [
            | inl e ↦ rw e (given_value-IsFaithful _ action.action_value log h (λ _. (refl, h)))
            | inr e ↦ rw e (elim (Bool-cases (str_eq action.action_type "forward")) [
              | inl e ↦ rw e (
                  given_value-IsFaithful _ action.action_value log h
                    (λ t. sent t s.smtp_configured))
              | inr e ↦ rw e h
            ])
          ])
        ])
      ])
    ])
  ]
    where
      sent : (to : Text) (b : Bool) → InInbox (if b then send_message to ∷ log else log)
      sent to true = (refl, h)
      sent to false = h

  unless_removed-IsFaithful :
      (next : Log → Bool × Log) (r : Bool × Log)
      → ((log : Log) → InInbox log → IsFaithful (next log))
      → IsFaithful r
      → IsFaithful (unless_removed next r)
  unless_removed-IsFaithful next (true, log) hn h = h
  unless_removed-IsFaithful next (false, log) hn h = hn log h

  run_actions-IsFaithful :
      (actions : List FilterAction) (log : Log)
      → InInbox log
      → IsFaithful (run_actions s actions log)
  unfolding run_actions
  run_actions-IsFaithful [] log h = h
  run_actions-IsFaithful (action ∷ actions) log h =
      unless_removed-IsFaithful (run_actions s actions) (run_action s action log)
        (run_actions-IsFaithful actions) (run_action-IsFaithful action log h)

  -- From a log in which the message is in INBOX, the rules leave one that tells whether it still is: if
  -- the run answers that the message was not removed, no operation removed it; if it was, the last
  -- operation did it, and nothing is done to the message after.
  pub run_rules-IsFaithful :
      (rules : List FilterRule) (log : Log) → InInbox log → IsFaithful (run_rules s rules log)
  unfolding run_rules
  run_rules-IsFaithful [] log h = h
  run_rules-IsFaithful (rule ∷ rules) log h =
      if-IsFaithful (s.sieve_active && is_sieve_capable rule) _ _ (run_rules-IsFaithful rules log h)
        (unless_removed-IsFaithful _ (run_actions s rule.actions log)
          (λ after k. if-IsFaithful rule.stop_processing _ _ k (run_rules-IsFaithful rules after k))
          (run_actions-IsFaithful rule.actions log h))

-- ===== src/Delivery/Skipped.antt =====
-- backend/src/realtime/idle.rs: the rules that the in-app filters leave to the mail server, which runs
-- what backend/src/sieve/generator.rs made of them.
use rav.Common.{
  ◌≡◌, refl, ap, ◌∙◌, sym, inl, inr, true, false, ◌&&◌, not, List, [], ◌∷◌, ◌++◌, arith, Bool-cases,
  keep, if◌then◌else◌,
}
use rav.Filters.{FilterRule}
use rav.Sieve.Rules.{is_sieve_capable, rule_block}
use rav.Sieve.Dropped.{without_untranslatable, rule_block-empty}
use rav.Delivery.{Log, Session, unless_removed, run_actions, run_rules}

module _ (s : Session) where
  -- With a Sieve server, the in-app filters do to a message exactly what they would do if the rules that
  -- the server can run did not exist, their `stop_processing` included.
  pub run_rules-keep :
      (rules : List FilterRule) (log : Log)
      → s.sieve_active ≡ true
      → run_rules s rules log ≡ run_rules s (keep (λ r. not (is_sieve_capable r)) rules) log
  unfolding run_rules
  run_rules-keep [] log on = refl
  run_rules-keep (rule ∷ rules) log on = elim (Bool-cases (is_sieve_capable rule)) [
    | inl e ↦
        let skipped : (s.sieve_active && is_sieve_capable rule) ≡ true =
          ap (λ b. b && is_sieve_capable rule) on ∙ e in
        rw skipped (rw e (run_rules-keep rules log on))
    | inr e ↦
        let run : (s.sieve_active && is_sieve_capable rule) ≡ false =
          ap (λ b. b && is_sieve_capable rule) on ∙ e in
        rw run (
          rw e (
            rw run (
              ap (λ f. unless_removed f (run_actions s rule.actions log))
                (λ i after.
                  if rule.stop_processing
                  then (false, after)
                  else run_rules-keep rules after on i))))
  ]

  -- With a Sieve server, a rule that the server can run, none of whose conditions has a Sieve test, is
  -- run nowhere: its block of the script is empty, and the in-app filters do what they do without it.
  pub run_nowhere :
      (rule : FilterRule) (before after : List FilterRule) (log : Log)
      → s.sieve_active ≡ true
      → is_sieve_capable rule ≡ true
      → (without_untranslatable rule).conditions ≡ []
      → (rule_block rule ≡ [])
        × (run_rules s (before ++ rule ∷ after) log ≡ run_rules s (before ++ after) log)
  run_nowhere rule before after log on e none_left =
      (rule_block-empty rule none_left, skip before log)
    where
      skip :
          (rules : List FilterRule) (l : Log)
          → run_rules s (rules ++ rule ∷ after) l ≡ run_rules s (rules ++ after) l
      skip rules l =
          run_rules-keep (rules ++ rule ∷ after) l on
          ∙ ap (λ kept. run_rules s kept l) (dropped rules)
          ∙ sym (run_rules-keep (rules ++ after) l on)
        where
          dropped :
              (rules : List FilterRule)
              → keep (λ r. not (is_sieve_capable r)) (rules ++ rule ∷ after)
                ≡ keep (λ r. not (is_sieve_capable r)) (rules ++ after)
          dropped [] = rw e refl
          dropped (r ∷ rules) = ground (arith, dropped rules)

-- ===== src/Delivery/Tests.antt =====
-- In-app filters on one concrete message.
use rav.Common.{◌≡◌, refl, true, not, none, some, [], ◌∷◌, ◌++◌, keep, codes}
use rav.Filters.{FilterRule}
use rav.Sieve.Rules.{
  is_sieve_capable, rule_block, condition_to_sieve, field_to_header, string_to_sieve,
}
use rav.Sieve.Dropped.{without_untranslatable}
use rav.Delivery.{move_message, add_tag, Session, run_action, run_actions, run_rules}
use rav.Delivery.Once.{IsFaithful, run_rules-IsFaithful}
use rav.Delivery.Skipped.{run_rules-keep, run_nowhere}

abbrev online : Session
online = record { sieve_active = true; smtp_configured = true; succeeds = λ _ _. true }

abbrev by_regex : FilterRule
by_regex = record {
  id = "a";
  name = codes "Spam";
  enabled = true;
  priority = 0;
  conditions = record { field = "subject"; op = "matches_regex"; value = codes "^spam" } ∷ [];
  match_mode = "all";
  actions = record { action_type = "delete"; action_value = none } ∷ [];
  stop_processing = true;
  created_at = 1;
  updated_at = 1;
}

abbrev tagging : FilterRule
tagging = record by_regex {
  id = "b";
  conditions = [];
  actions =
      record { action_type = "tag"; action_value = some (codes "t1") }
      ∷ record { action_type = "move"; action_value = some (codes "Work") }
      ∷ record { action_type = "tag"; action_value = some (codes "t2") }
      ∷ [];
}

tagged_then_moved :
    run_rules online (by_regex ∷ tagging ∷ []) []
    ≡ (true, move_message (codes "Work") ∷ add_tag (codes "t1") ∷ [])
unfolding run_rules run_actions run_action is_sieve_capable
tagged_then_moved = refl

run_rules-IsFaithful_example : IsFaithful online (run_rules online (by_regex ∷ tagging ∷ []) [])
run_rules-IsFaithful_example = run_rules-IsFaithful online (by_regex ∷ tagging ∷ []) [] tt

run_rules-keep_example :
    run_rules online (by_regex ∷ tagging ∷ []) []
    ≡ run_rules online (keep (λ r. not (is_sieve_capable r)) (by_regex ∷ tagging ∷ [])) []
run_rules-keep_example = run_rules-keep online (by_regex ∷ tagging ∷ []) [] refl

by_regex_capable : is_sieve_capable by_regex ≡ true
unfolding is_sieve_capable
by_regex_capable = refl

no_test : (without_untranslatable by_regex).conditions ≡ []
unfolding condition_to_sieve field_to_header string_to_sieve
no_test = refl

run_nowhere_example :
    (rule_block by_regex ≡ [])
    × (run_rules online ([] ++ by_regex ∷ tagging ∷ []) []
        ≡ run_rules online ([] ++ tagging ∷ []) [])
run_nowhere_example = run_nowhere online by_regex [] (tagging ∷ []) [] refl by_regex_capable no_test

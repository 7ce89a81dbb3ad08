-- ===== src/Rules/Evaluate/Frame.antt =====
-- What one rule's evaluation in rule_engine.cpp changes of the state of a given rule id.
use vms_ai.Prelude.{
  ℤ, ◌≡◌, refl, true, ◌&&◌, Option, none, some, List, int_beq, if◌then◌else◌, arith, lookup,
  lookup-insert, int_eq,
}
use vms_ai.Events.{RawEvent, TimePoint}
use vms_ai.Rules.Model.{CompositeRule, RuleTriggerLog, NoiseState, RuleEngine}
use vms_ai.Rules.Noise.{
  cooled, check_cooldown, check_debounce, check_rate_limit, debounce_step, rate_step,
  check_anti_noise,
}
use vms_ai.Rules.Evaluate.{suppress, trigger, evaluate_rule}

-- The time of the last trigger on record for a rule id.
abbrev pub last_of : Option NoiseState → Option TimePoint
last_of none = none
last_of (some n) = some n.last_trigger

noise-check_anti_noise :
    (rule : CompositeRule) (event : RawEvent) (now : TimePoint) (s : RuleEngine)
    → (check_anti_noise rule event now s).0.noise_state ≡ s.noise_state
unfolding check_anti_noise debounce_step rate_step check_debounce check_rate_limit
noise-check_anti_noise rule event now s = ground arith

rules-check_anti_noise :
    (rule : CompositeRule) (event : RawEvent) (now : TimePoint) (s : RuleEngine)
    → ((check_anti_noise rule event now s).0.rules ≡ s.rules)
      × ((check_anti_noise rule event now s).0.trigger_log ≡ s.trigger_log)
unfolding check_anti_noise debounce_step rate_step check_debounce check_rate_limit
rules-check_anti_noise rule event now s = ground arith

cooled-check_anti_noise :
    (rule : CompositeRule) (event : RawEvent) (now : TimePoint) (s : RuleEngine)
    → (check_anti_noise rule event now s).1 ≡ true
    → cooled (lookup rule.rule_id s.noise_state) rule.anti_noise.cooldown_sec now ≡ true
unfolding check_anti_noise check_cooldown
cooled-check_anti_noise rule event now s h = ground arith

trigger-last_of :
    (id : ℤ) (rule : CompositeRule) (event : RawEvent) (now : TimePoint) (s : RuleEngine)
    → last_of (lookup id (trigger rule event now s).noise_state)
      ≡ (if int_beq rule.rule_id id then some now else last_of (lookup id s.noise_state))
unfolding trigger
trigger-last_of id rule event now s = simp lookup-insert (ground arith)

noise-suppress :
    (rule : CompositeRule) (event : RawEvent) (now : TimePoint) (s : RuleEngine)
    → (suppress rule event now s).noise_state ≡ s.noise_state
unfolding suppress
noise-suppress rule event now s = refl

rules-suppress-trigger :
    (rule : CompositeRule) (event : RawEvent) (now : TimePoint) (s : RuleEngine)
    → ((suppress rule event now s).rules ≡ s.rules) × ((trigger rule event now s).rules ≡ s.rules)
unfolding suppress trigger
rules-suppress-trigger rule event now s = (refl, refl)

module _ (event : RawEvent) (now : TimePoint) (local : ℤ × ℤ) (log : List RuleTriggerLog) where
  pub rules-evaluate_rule :
      (rule : CompositeRule) (s : RuleEngine)
      → (evaluate_rule rule event now local log s).0.rules ≡ s.rules
  unfolding evaluate_rule
  rules-evaluate_rule rule s = ground (
    arith,
    rules-check_anti_noise rule event now s,
    rules-suppress-trigger rule event now (check_anti_noise rule event now s).0,
  )

  -- A rule that fires has cooled down.
  pub fired-cooled :
      (rule : CompositeRule) (s : RuleEngine)
      → (evaluate_rule rule event now local log s).1 ≡ true
      → cooled (lookup rule.rule_id s.noise_state) rule.anti_noise.cooldown_sec now ≡ true
  unfolding evaluate_rule
  fired-cooled rule s h = ground (arith, cooled-check_anti_noise rule event now s)

  -- The last trigger of a rule id is `now` if its rule fires, and is kept otherwise.
  pub last_of-evaluate_rule :
      (id : ℤ) (rule : CompositeRule) (s : RuleEngine)
      → last_of (lookup id (evaluate_rule rule event now local log s).0.noise_state) ≡ (
          if (evaluate_rule rule event now local log s).1 && int_beq rule.rule_id id
          then some now
          else last_of (lookup id s.noise_state))
  unfolding evaluate_rule
  last_of-evaluate_rule id rule s = ground (
    arith,
    noise-check_anti_noise rule event now s,
    noise-suppress rule event now (check_anti_noise rule event now s).0,
    trigger-last_of id rule event now (check_anti_noise rule event now s).0,
  )

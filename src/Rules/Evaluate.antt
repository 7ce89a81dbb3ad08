-- ===== src/Rules/Evaluate.antt =====
-- evaluateEvent, executeActions and the trigger log of rule_engine.cpp.
pub mod Frame
pub mod Cooldown
pub mod Window
pub mod RateLimit
pub mod Log
pub mod Recent
use vms_ai.Prelude.{
  ℕ, zero, suc, ◌+◌, ◌-◌, ◌%◌, ◌^◌, ℤ, pos, pos_part, neg_part, ◌+ℤ◌, ◌-ℤ◌, ltb_ℤ, Bool, true,
  false, not, ◌&&◌, ◌||◌, Option, none, some, List, [], ◌∷◌, ◌++◌, map, ltb, length, drop,
  if◌then◌else◌, lookup, insert, int_eq, Text, bytes,
}
use vms_ai.Events.{RawEvent, TimePoint}
use vms_ai.Rules.Model.{
  ActionType, alert, record_clip, snapshot, webhook, log, RuleAction, CompositeRule, RuleTriggerLog,
  NoiseState, new_noise, RuleEngine, contains,
}
use vms_ai.Rules.Conditions.{is_empty, evaluate_conditions}
use vms_ai.Rules.Noise.{check_anti_noise, window_of}

unfoldable pub action_type_to_string : ActionType → Text
action_type_to_string alert = bytes "ALERT"
action_type_to_string record_clip = bytes "RECORD_CLIP"
action_type_to_string snapshot = bytes "SNAPSHOT"
action_type_to_string webhook = bytes "WEBHOOK"
action_type_to_string log = bytes "LOG"

-- An uint64_t counter's ++.
abbrev pub count_up : ℕ → ℕ
count_up n = (n + 1) % 2 ^ 64

abbrev pub tail_of {ℓ} : {A : Type ℓ} → List A → List A
tail_of [] = []
tail_of (x ∷ xs) = xs

-- push_back, and the erase of the oldest entry past 10000.
unfoldable pub push_log : RuleTriggerLog → List RuleTriggerLog → List RuleTriggerLog
push_log l ls =
    let pushed = ls ++ l ∷ [] in if ltb 10000 (length pushed) then tail_of pushed else pushed

abbrev or_new_noise : Option NoiseState → NoiseState
or_new_noise none = new_noise
or_new_noise (some n) = n

-- The branch of a rule that the anti-noise check holds back.
unfoldable pub suppress : CompositeRule → RawEvent → TimePoint → RuleEngine → RuleEngine
suppress rule event now s = record s {
  trigger_log = push_log entry s.trigger_log;
  total_suppressed = count_up s.total_suppressed;
}
  where
    entry : RuleTriggerLog
    entry = record {
      log_id = 0;
      rule_id = rule.rule_id;
      rule_name = rule.name;
      event_id = event.event_id;
      camera_id = event.camera_id;
      event_type = event.type;
      actions_taken = [];
      suppressed = true;
      suppression_reason = [];
      triggered_at = now;
    }

-- The branch of a rule that fires, up to its deferred actions.
unfoldable pub trigger : CompositeRule → RawEvent → TimePoint → RuleEngine → RuleEngine
trigger rule event now s = record s {
  noise_state = insert rule.rule_id noise s.noise_state;
  rate_window =
      insert rule.rule_id (window_of (lookup rule.rule_id s.rate_window) ++ now ∷ []) s.rate_window;
  trigger_log = push_log entry s.trigger_log;
  total_triggered = count_up s.total_triggered;
}
  where
    old : NoiseState
    old = or_new_noise (lookup rule.rule_id s.noise_state)

    noise : NoiseState
    noise = record old { last_trigger = now; consecutive_count = old.consecutive_count +ℤ pos 1 }

    entry : RuleTriggerLog
    entry = record {
      log_id = count_up s.total_triggered;
      rule_id = rule.rule_id;
      rule_name = rule.name;
      event_id = event.event_id;
      camera_id = event.camera_id;
      event_type = event.type;
      actions_taken = map (λ (a : RuleAction). action_type_to_string a.type) rule.actions;
      suppressed = false;
      suppression_reason = [];
      triggered_at = now;
    }

-- The tests that pass over a rule: it is disabled, the camera is out of scope, the conditions fail.
unfoldable pub matches : CompositeRule → RawEvent → TimePoint → ℤ × ℤ → List RuleTriggerLog → Bool
matches rule event now local log_snapshot =
    rule.enabled
    && ((is_empty rule.camera_ids || contains event.camera_id rule.camera_ids)
        && evaluate_conditions rule.conditions rule.logic event now local log_snapshot)

-- The body of the loop of evaluateEvent: the state after it, and whether the rule fired.
unfoldable pub evaluate_rule :
    CompositeRule
    → RawEvent
    → TimePoint
    → ℤ × ℤ
    → List RuleTriggerLog
    → RuleEngine
    → RuleEngine × Bool
evaluate_rule rule event now local log_snapshot s =
    let (s', quiet) = check_anti_noise rule event now s in
    if not (matches rule event now local log_snapshot)
    then (s, false)
    else if not quiet
    then (suppress rule event now s', false)
    else (trigger rule event now s', true)

-- The loop: the state after it, and the pending actions in order.
unfoldable pub evaluate_rules :
    List CompositeRule
    → RawEvent
    → TimePoint
    → ℤ × ℤ
    → List RuleTriggerLog
    → RuleEngine
    → RuleEngine × List CompositeRule
evaluate_rules [] event now local log_snapshot s = (s, [])
evaluate_rules (rule ∷ rules) event now local log_snapshot s =
    let (s', fired) = evaluate_rule rule event now local log_snapshot s in
    let (s'', pending) = evaluate_rules rules event now local log_snapshot s' in
    (s'', if fired then rule ∷ pending else pending)

-- What the engine asks of the other parts.
pub data Effect : Type 0 where
  deliver : CompositeRule → RuleAction → RawEvent → Effect
  trigger_recording : ℤ → ℤ → ℤ → ℤ → Effect  -- rule, camera, seconds after, seconds before
  take_snapshot : ℤ → Effect
  log_event : CompositeRule → RawEvent → Effect
  call_back : ℕ → CompositeRule → RawEvent → Effect

unfoldable pub execute_action : ActionType → CompositeRule → RuleAction → RawEvent → Effect
execute_action alert rule action event = deliver rule action event
execute_action record_clip rule action event =
    trigger_recording rule.rule_id event.camera_id
      (if ltb_ℤ (pos 0) action.post_event_sec then action.post_event_sec else pos 20)
      (if ltb_ℤ (pos 0) action.pre_event_sec then action.pre_event_sec else pos 10)
execute_action snapshot rule action event = take_snapshot event.camera_id
execute_action webhook rule action event = deliver rule action event
execute_action log rule action event = log_event rule event

unfoldable pub execute_actions : CompositeRule → RawEvent → List Effect
execute_actions rule event =
    map (λ (a : RuleAction). execute_action a.type rule a event) rule.actions

-- The loop behind the lock: the actions of each pending rule, then the callbacks for it.
unfoldable pub run_pending : List CompositeRule → List ℕ → RawEvent → List Effect
run_pending [] callbacks event = []
run_pending (rule ∷ rules) callbacks event =
    (execute_actions rule event ++ map (λ (cb : ℕ). call_back cb rule event) callbacks)
    ++ run_pending rules callbacks event

-- The block of evaluateEvent under the lock: the state, and the pending rules.
unfoldable pub evaluate_locked :
    RawEvent → TimePoint → (TimePoint → ℤ × ℤ) → RuleEngine → RuleEngine × List CompositeRule
evaluate_locked event now localtime s =
    evaluate_rules s.rules event now (localtime now) s.trigger_log
      (record s { total_evaluated = count_up s.total_evaluated })

-- evaluateEvent: the state, what is executed, and whether any rule fired.
unfoldable pub evaluate_event :
    RawEvent → TimePoint → (TimePoint → ℤ × ℤ) → RuleEngine → RuleEngine × List Effect × Bool
evaluate_event event now localtime s =
    let (s', pending) = evaluate_locked event now localtime s in
    (s', run_pending pending s.callbacks event, not (is_empty pending))

-- `none` is a start past the end of the log, which the iterator constructor of the vector may not be
-- given.
unfoldable pub get_recent_triggers : ℤ → RuleEngine → Option (List RuleTriggerLog)
get_recent_triggers limit s =
    let start = pos (length s.trigger_log) -ℤ limit in
    let from = if ltb_ℤ start (pos 0) then 0 else pos_part start in
    if ltb (length s.trigger_log) from then none else some (drop from s.trigger_log)

unfoldable pub on_rule_fired : ℕ → RuleEngine → RuleEngine
on_rule_fired cb s = record s { callbacks = s.callbacks ++ cb ∷ [] }

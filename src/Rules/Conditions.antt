-- ===== src/Rules/Conditions.antt =====
-- evaluateCondition and evaluateConditions of rule_engine.cpp.
pub mod Chaining
pub mod Logic
use mathlib.Core.List.{reverse}
use vms_ai.Prelude.{
  ℕ, ℤ, pos, ltb_ℤ, leb_ℤ, Bool, true, false, not, ◌&&◌, ◌||◌, List, [], ◌∷◌, Text, text_beq,
  int_beq, int_eq, leb, if◌then◌else◌, Eq,
}
use vms_ai.Events.{
  EventType, RawEvent, Float, TimePoint, severity_rank, event_type_eq, EventType-discrete,
}
use vms_ai.Rules.Model.{
  ConditionType, object, zone, time, behavior, event_type, severity, confidence, camera,
  rule_triggered, RuleCondition, RuleLogic, and, or, RuleTriggerLog, seconds_between, contains,
}

-- xs.empty()
abbrev pub is_empty {ℓ} : {A : Type ℓ} → List A → Bool
is_empty [] = true
is_empty (x ∷ xs) = false

-- The hours of a TIME condition; a range that starts after it ends runs over midnight.
unfoldable pub in_range : ℤ → ℤ → ℤ → Bool
in_range start_hour end_hour hour =
    if leb_ℤ start_hour end_hour
    then leb_ℤ start_hour hour && leb_ℤ hour end_hour
    else leb_ℤ start_hour hour || leb_ℤ hour end_hour

-- The loop of RULE_TRIGGERED, from the newest entry on.
unfoldable pub recently_triggered : RuleCondition → ℤ → TimePoint → List RuleTriggerLog → Bool
recently_triggered cond camera_id now [] = false
recently_triggered cond camera_id now (l ∷ ls) =
    let rest = recently_triggered cond camera_id now ls in
    if int_beq l.rule_id cond.referenced_rule_id
    then if leb_ℤ (seconds_between l.triggered_at now) cond.chaining_window_sec
      then if int_beq l.camera_id camera_id then true else rest
      else false
    else rest

-- The `switch` of evaluateCondition; `local` is the hour and the day of the week at `now`.
unfoldable pub evaluate_switch :
    ConditionType → RuleCondition → RawEvent → TimePoint → ℤ × ℤ → List RuleTriggerLog → Bool
evaluate_switch object cond event now local log =
    is_empty cond.object_class || text_beq event.object_class cond.object_class
evaluate_switch zone cond event now local log =
    if ltb_ℤ cond.zone_id (pos 0) then true else int_beq event.zone_id cond.zone_id
evaluate_switch time cond event now (hour, day) log =
    in_range cond.start_hour cond.end_hour hour
    && (is_empty cond.days_of_week || contains day cond.days_of_week)
evaluate_switch behavior cond event now local log = event_type_eq.beq event.type cond.behavior_type
evaluate_switch event_type cond event now local log =
    is_empty cond.event_types || contains event.type cond.event_types
evaluate_switch severity cond event now local log =
    leb (severity_rank cond.min_severity) (severity_rank event.severity)
evaluate_switch confidence cond event now local log = leb_ℤ cond.min_confidence event.confidence
evaluate_switch camera cond event now local log =
    is_empty cond.camera_ids || contains event.camera_id cond.camera_ids
evaluate_switch rule_triggered cond event now local log =
    if ltb_ℤ cond.referenced_rule_id (pos 0)
    then true
    else recently_triggered cond event.camera_id now (reverse log)

unfoldable pub evaluate_condition :
    RuleCondition → RawEvent → TimePoint → ℤ × ℤ → List RuleTriggerLog → Bool
evaluate_condition cond event now local log = evaluate_switch cond.type cond event now local log

-- The loops of evaluateConditions.
unfoldable pub all_hold :
    List RuleCondition → RawEvent → TimePoint → ℤ × ℤ → List RuleTriggerLog → Bool
all_hold [] event now local log = true
all_hold (c ∷ cs) event now local log =
    if not (evaluate_condition c event now local log)
    then false
    else all_hold cs event now local log

unfoldable pub any_holds :
    List RuleCondition → RawEvent → TimePoint → ℤ × ℤ → List RuleTriggerLog → Bool
any_holds [] event now local log = false
any_holds (c ∷ cs) event now local log =
    if evaluate_condition c event now local log then true else any_holds cs event now local log

unfoldable pub evaluate_conditions :
    List RuleCondition → RuleLogic → RawEvent → TimePoint → ℤ × ℤ → List RuleTriggerLog → Bool
evaluate_conditions [] logic event now local log = true
evaluate_conditions (c ∷ cs) and event now local log = all_hold (c ∷ cs) event now local log
evaluate_conditions (c ∷ cs) or event now local log = any_holds (c ∷ cs) event now local log

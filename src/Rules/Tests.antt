-- ===== src/Rules/Tests.antt =====
-- Runs of rule_engine.cpp, and its theorems at concrete inputs.
use vms_ai.Prelude.{
  ℕ, ◌*◌, ◌≡◌, ◌≤ℤ◌, refl, ℤ, pos, negsuc, true, none, some, List, [], ◌∷◌, arith, bytes, lookup,
  int_eq, insert, ◌-ℤ◌,
}
use vms_ai.Events.{RawEvent, TimePoint, person_detected, unknown, high, low}
use vms_ai.Rules.Model.{
  CompositeRule, RuleCondition, RuleTriggerLog, RuleEngine, new, and, object, rule_triggered,
  ticks_per_second, to_seconds, seconds_between,
}
use vms_ai.Rules.Store.{get_rule, has_rule, find_rule}
use vms_ai.Prelude.{◌+ℤ◌}
use vms_ai.Rules.Store
use vms_ai.Rules.Store.Valid.{IsValid, Change, change, changes, adds, removes, reserves}
use vms_ai.Rules.Store.Ids.{changes-IsValid, AreUnused, IsAscending, all_chosen}
use vms_ai.Rules.Conditions.{evaluate_condition}
use vms_ai.Rules.Conditions.Chaining.{any_recent, rule_triggered-any_recent}
use vms_ai.Rules.Noise.{check_debounce, debounce}
use vms_ai.Rules.Noise.Debounce.{observe, Streak, check_debounce-Streak}
use vms_ai.Rules.Evaluate.Cooldown.{fires, Spaced, fires-Spaced}
use vms_ai.Rules.Evaluate.RateLimit.{Limited, fires-Limited}
use vms_ai.Rules.Evaluate.{get_recent_triggers}
use vms_ai.Rules.Evaluate.Recent.{Newest, get_recent_triggers-Newest}
use vms_ai.Rules.Evaluate.Log.{IsLog, evaluate_events, evaluate_events-IsLog}

abbrev at : ℕ → TimePoint
at n = pos (n * ticks_per_second)

abbrev localtime : TimePoint → ℤ × ℤ
localtime t = (pos 12, pos 3)

abbrev sighting : RawEvent
sighting = record {
  event_id = 9;
  camera_id = pos 4;
  type = person_detected;
  severity = high;
  zone_id = negsuc 0;
  bbox = record { x = pos 0; y = pos 0; width = pos 10; height = pos 20 };
  world_position = record { x = pos 0; y = pos 0 };
  object_class = bytes "person";
  track_id = pos 1;
  confidence = pos 9;
  timestamp = at 100;
  frame_number = 1;
  snapshot_path = [];
  snapshot_data = [];
  metadata = [];
}

abbrev any_person : RuleCondition
any_person = record {
  type = object;
  object_class = bytes "person";
  zone_id = negsuc 0;
  zone_action = bytes "enter";
  start_hour = pos 0;
  end_hour = pos 23;
  days_of_week = [];
  behavior_type = unknown;
  duration_sec = pos 0;
  event_types = [];
  min_severity = low;
  min_confidence = pos 0;
  camera_ids = [];
  referenced_rule_id = negsuc 0;
  chaining_window_sec = pos 30;
}

abbrev chained : RuleCondition
chained = record any_person { type = rule_triggered; referenced_rule_id = pos 1 }

abbrev person_rule : CompositeRule
person_rule = record {
  rule_id = pos 0;
  name = bytes "person";
  description = [];
  enabled = true;
  logic = and;
  conditions = any_person ∷ [];
  actions = [];
  anti_noise = record {
    cooldown_sec = pos 60;
    debounce_sec = pos 0;
    min_duration_sec = pos 2;
    confidence_threshold = pos 5;
    max_alerts_per_hour = pos 2;
  };
  camera_ids = [];
  metadata = [];
  created_at = at 0;
  updated_at = at 0;
}

new-IsValid : IsValid new
new-IsValid = record { ids = tt; positive = omega arith }

abbrev some_changes : List Change
some_changes =
    reserves
    ∷ adds person_rule (at 1)
    ∷ adds (record person_rule { rule_id = pos 7 }) (at 2)
    ∷ removes (pos 2)
    ∷ adds person_rule (at 3)
    ∷ []

three_chosen : all_chosen new some_changes ≡ pos 1 ∷ pos 2 ∷ pos 8 ∷ []
unfolding change Store.add_rule Store.push_rule Store.has_rule Store.remove_rule Store.remove_in
    Store.get_next_rule_id ◌+ℤ◌
three_chosen = refl

changes-IsValid_example :
    IsValid (changes new some_changes)
    × AreUnused new some_changes
    × IsAscending (pos 1) (all_chosen new some_changes)
changes-IsValid_example = changes-IsValid new some_changes new-IsValid

-- One rule, with id 1.
abbrev one_rule : RuleEngine
one_rule = record new { rules = record person_rule { rule_id = pos 1 } ∷ []; next_rule_id = pos 2 }

one_rule-IsValid : IsValid one_rule
unfolding has_rule
one_rule-IsValid = record { ids = (refl, omega arith, tt); positive = omega arith }

abbrev entry : ℕ → RuleTriggerLog
entry t = record {
  log_id = 1;
  rule_id = pos 1;
  rule_name = [];
  event_id = 9;
  camera_id = pos 4;
  event_type = person_detected;
  actions_taken = [];
  suppressed = true;
  suppression_reason = [];
  triggered_at = at t;
}

rule_triggered-any_recent_example :
    evaluate_condition chained sighting (at 100) (pos 12, pos 3) (entry 50 ∷ entry 80 ∷ [])
    ≡ any_recent chained (pos 4) (at 100) (entry 50 ∷ entry 80 ∷ [])
rule_triggered-any_recent_example =
    rule_triggered-any_recent chained sighting (at 100) (pos 12, pos 3) (entry 50 ∷ entry 80 ∷ [])
      refl refl (omega arith)

-- A suppressed entry satisfies a chained rule.
suppressed_chains : any_recent chained (pos 4) (at 100) (entry 50 ∷ entry 80 ∷ []) ≡ true
unfolding to_seconds ◌-ℤ◌
suppressed_chains = refl

abbrev seen_at : List TimePoint
seen_at = at 12 ∷ at 11 ∷ at 10 ∷ []

check_debounce-Streak_example :
    (first : TimePoint) × Streak (pos 3) (at 13) seen_at first
    × (pos 3 ≤ℤ seconds_between first (at 13))
unfolding observe check_debounce debounce lookup insert to_seconds ◌-ℤ◌
check_debounce-Streak_example =
    check_debounce-Streak (pos 1) (pos 4) (pos 3) (at 13) seen_at new refl refl

abbrev sightings : List (TimePoint × RawEvent)
sightings = (at 100, sighting) ∷ (at 110, sighting) ∷ (at 170, sighting) ∷ (at 240, sighting) ∷ []

fires-Spaced_example : Spaced (pos 60) (fires (pos 1) localtime sightings one_rule)
unfolding get_rule find_rule
fires-Spaced_example =
    fires-Spaced (pos 1) (record person_rule { rule_id = pos 1 }) localtime sightings one_rule
      one_rule-IsValid refl

fires-Limited_example : Limited 2 [] (fires (pos 1) localtime sightings one_rule)
unfolding get_rule find_rule lookup
fires-Limited_example =
    fires-Limited (pos 1) (record person_rule { rule_id = pos 1 }) localtime sightings one_rule
      (at 0) one_rule-IsValid refl refl refl (omega arith)

evaluate_events-IsLog_example :
    IsLog (at 240) (evaluate_events localtime sightings one_rule).trigger_log
evaluate_events-IsLog_example =
    evaluate_events-IsLog localtime sightings one_rule (at 0) (omega arith)
      (record { bounded = omega arith; ordered = tt; past = tt })

abbrev logged : RuleEngine
logged = record new { trigger_log = entry 50 ∷ entry 80 ∷ [] }

get_recent_triggers-Newest_example :
    ((entries : List RuleTriggerLog) × (get_recent_triggers (pos 1) logged ≡ some entries)
      × Newest 1 (entry 50 ∷ entry 80 ∷ []) entries)
    × (get_recent_triggers (negsuc 1) logged ≡ none)
get_recent_triggers-Newest_example = get_recent_triggers-Newest 1 logged

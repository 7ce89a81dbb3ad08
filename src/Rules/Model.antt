-- ===== src/Rules/Model.antt =====
-- The data of rule_engine.h, and time in the rule engine.
use vms_ai.Prelude.{
  ℕ, zero, suc, ◌/◌, ℤ, pos, negsuc, ◌-ℤ◌, Bool, false, ◌||◌, List, [], ◌∷◌, Text, Map, Eq,
}
use vms_ai.Events.{EventType, EventSeverity, Float, TimePoint, Json}

pub data AlertChannel : Type 0 where
  none ui_notification email sms webhook mobile_push alarm_output : AlertChannel

pub data ConditionType : Type 0 where
  object zone time behavior event_type severity confidence camera rule_triggered : ConditionType

pub record RuleCondition : Type 0 where
  pub type : ConditionType
  pub object_class : Text
  pub zone_id : ℤ
  pub zone_action : Text
  pub start_hour : ℤ
  pub end_hour : ℤ
  pub days_of_week : List ℤ
  pub behavior_type : EventType
  pub duration_sec : ℤ
  pub event_types : List EventType
  pub min_severity : EventSeverity
  pub min_confidence : Float
  pub camera_ids : List ℤ
  pub referenced_rule_id : ℤ
  pub chaining_window_sec : ℤ

pub data ActionType : Type 0 where
  alert record_clip snapshot webhook log : ActionType

pub record RuleAction : Type 0 where
  pub type : ActionType
  pub channels : List AlertChannel
  pub pre_event_sec : ℤ
  pub post_event_sec : ℤ
  pub webhook_url : Text
  pub metadata : Json

pub record AntiNoiseConfig : Type 0 where
  pub cooldown_sec : ℤ
  pub debounce_sec : ℤ
  pub min_duration_sec : ℤ
  pub confidence_threshold : Float
  pub max_alerts_per_hour : ℤ

pub data RuleLogic : Type 0 where
  and or : RuleLogic

pub record CompositeRule : Type 0 where
  pub rule_id : ℤ
  pub name : Text
  pub description : Text
  pub enabled : Bool
  pub logic : RuleLogic
  pub conditions : List RuleCondition
  pub actions : List RuleAction
  pub anti_noise : AntiNoiseConfig
  pub camera_ids : List ℤ
  pub metadata : Json
  pub created_at : TimePoint
  pub updated_at : TimePoint

-- The dump of the JSON array in `actions_taken` is kept as the list of its strings.
pub record RuleTriggerLog : Type 0 where
  pub log_id : ℕ  -- uint64_t
  pub rule_id : ℤ
  pub rule_name : Text
  pub event_id : ℕ  -- uint64_t
  pub camera_id : ℤ
  pub event_type : EventType
  pub actions_taken : List Text
  pub suppressed : Bool
  pub suppression_reason : Text
  pub triggered_at : TimePoint

pub record NoiseState : Type 0 where
  pub last_trigger : TimePoint
  pub first_seen : TimePoint
  pub last_seen : TimePoint
  pub consecutive_count : ℤ

abbrev pub epoch : TimePoint
epoch = pos 0

abbrev pub new_noise : NoiseState
new_noise = record {
  last_trigger = epoch;
  first_seen = epoch;
  last_seen = epoch;
  consecutive_count = pos 0;
}

-- The key "rule_id:camera_id" of debounce_state_ is kept as the pair, of which it is a one-to-one
-- print. A callback is kept as a number.
pub record RuleEngine : Type 0 where
  pub rules : List CompositeRule
  pub trigger_log : List RuleTriggerLog
  pub noise_state : Map ℤ NoiseState
  pub debounce_state : Map (ℤ × ℤ) NoiseState
  pub rate_window : Map ℤ (List TimePoint)
  pub total_evaluated : ℕ  -- uint64_t
  pub total_triggered : ℕ  -- uint64_t
  pub total_suppressed : ℕ  -- uint64_t
  pub next_rule_id : ℤ
  pub callbacks : List ℕ

abbrev pub new : RuleEngine
new = record {
  rules = [];
  trigger_log = [];
  noise_state = [];
  debounce_state = [];
  rate_window = [];
  total_evaluated = 0;
  total_triggered = 0;
  total_suppressed = 0;
  next_rule_id = pos 1;
  callbacks = [];
}

-- system_clock ticks are 100 ns, as in the MSVC library with which the README builds the backend.
abbrev pub ticks_per_second : ℕ
ticks_per_second = 10_000_000

abbrev pub neg_of : ℕ → ℤ
neg_of zero = pos 0
neg_of (suc n) = negsuc n

-- duration_cast<seconds>(d).count(), which rounds towards zero
unfoldable pub to_seconds : ℤ → ℤ
to_seconds (pos n) = pos (n / ticks_per_second)
to_seconds (negsuc n) = neg_of (suc n / ticks_per_second)

-- duration_cast<seconds>(now - then).count()
abbrev pub seconds_between : TimePoint → TimePoint → ℤ
seconds_between then now = to_seconds (now -ℤ then)

-- std::find(xs.begin(), xs.end(), a) != xs.end()
unfoldable pub contains {ℓ} : {A : Type ℓ} ⦃e : Eq A⦄ → A → List A → Bool
contains a [] = false
contains ⦃e⦄ a (x ∷ xs) = e.beq x a || contains a xs

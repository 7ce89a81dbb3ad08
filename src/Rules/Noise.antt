-- ===== src/Rules/Noise.antt =====
-- The anti-noise checks of rule_engine.cpp.
pub mod Debounce
use vms_ai.Prelude.{
  leb_ℤ, ℕ, ◌*◌, ℤ, pos, pos_part, ◌+ℤ◌, ◌-ℤ◌, ltb_ℤ, Bool, true, false, not, Option, none, some,
  List, [], ◌∷◌, ltb, length, if◌then◌else◌, lookup, insert, int_eq, pair_eq,
}
use vms_ai.Events.{RawEvent, TimePoint}
use vms_ai.Rules.Model.{
  CompositeRule, NoiseState, new_noise, RuleEngine, seconds_between, ticks_per_second,
}

unfoldable pub cooled : Option NoiseState → ℤ → TimePoint → Bool
cooled none cooldown_sec now = true
cooled (some n) cooldown_sec now = leb_ℤ cooldown_sec (seconds_between n.last_trigger now)

unfoldable pub check_cooldown : ℤ → ℤ → TimePoint → RuleEngine → Bool
check_cooldown rule_id cooldown_sec now s = cooled (lookup rule_id s.noise_state) cooldown_sec now

-- The body of checkDebounce on the state under the key.
unfoldable pub debounce : Option NoiseState → ℤ → TimePoint → NoiseState × Bool
debounce none debounce_sec now =
    (record new_noise { first_seen = now; last_seen = now; consecutive_count = pos 1 }, false)
debounce (some n) debounce_sec now =
    if ltb_ℤ debounce_sec (seconds_between n.last_seen now)
    then (record n { first_seen = now; last_seen = now; consecutive_count = pos 1 }, false)
    else if leb_ℤ debounce_sec (seconds_between n.first_seen now)
    then (record n { first_seen = now; last_seen = now; consecutive_count = pos 0 }, true)
    else (record n { last_seen = now; consecutive_count = n.consecutive_count +ℤ pos 1 }, false)

unfoldable pub check_debounce : ℤ → ℤ → ℤ → TimePoint → RuleEngine → RuleEngine × Bool
check_debounce rule_id camera_id debounce_sec now s =
    let (n, done) = debounce (lookup (rule_id, camera_id) s.debounce_state) debounce_sec now in
    (record s { debounce_state = insert (rule_id, camera_id) n s.debounce_state }, done)

abbrev pub one_hour : ℤ
one_hour = pos (3600 * ticks_per_second)

-- window.erase(remove_if(t < one_hour_ago))
unfoldable pub last_hour : TimePoint → List TimePoint → List TimePoint
last_hour now [] = []
last_hour now (t ∷ ts) =
    let rest = last_hour now ts in if ltb_ℤ t (now -ℤ one_hour) then rest else t ∷ rest

-- rate_window_[rule_id], which makes a missing window
abbrev pub window_of : Option (List TimePoint) → List TimePoint
window_of none = []
window_of (some ts) = ts

-- Called with a positive limit only, which the cast to size_t keeps.
unfoldable pub check_rate_limit : ℤ → ℤ → TimePoint → RuleEngine → RuleEngine × Bool
check_rate_limit rule_id max_per_hour now s =
    let window = last_hour now (window_of (lookup rule_id s.rate_window)) in
    (
      record s { rate_window = insert rule_id window s.rate_window },
      ltb (length window) (pos_part max_per_hour),
    )

-- The debounce step of checkAntiNoise.
unfoldable pub debounce_step : CompositeRule → RawEvent → TimePoint → RuleEngine → RuleEngine × Bool
debounce_step rule event now s =
    if ltb_ℤ (pos 0) rule.anti_noise.debounce_sec
    then check_debounce rule.rule_id event.camera_id rule.anti_noise.debounce_sec now s
    else (s, true)

-- Its rate limit step.
unfoldable pub rate_step : CompositeRule → TimePoint → RuleEngine → RuleEngine × Bool
rate_step rule now s =
    if ltb_ℤ (pos 0) rule.anti_noise.max_alerts_per_hour
    then check_rate_limit rule.rule_id rule.anti_noise.max_alerts_per_hour now s
    else (s, true)

unfoldable pub check_anti_noise :
    CompositeRule → RawEvent → TimePoint → RuleEngine → RuleEngine × Bool
check_anti_noise rule event now s =
    if ltb_ℤ event.confidence rule.anti_noise.confidence_threshold
    then (s, false)
    else if not (check_cooldown rule.rule_id rule.anti_noise.cooldown_sec now s)
    then (s, false)
    else (let (s', steady) = debounce_step rule event now s in
        if not steady then (s', false) else rate_step rule now s')

-- checkMinDuration, which nothing calls, always passes.
unfoldable pub check_min_duration : RawEvent → ℤ → Bool
check_min_duration event min_duration_sec = true

-- ===== src/Rules/Evaluate/Recent.antt =====
-- What getRecentTriggers of rule_engine.cpp returns.
use Prim.Native.Nat.{min}
use vms_ai.Prelude.{
  ℕ, ◌-◌, ◌≡◌, refl, pos, negsuc, ◌-ℤ◌, pos_part, ltb_ℤ, false, none, some, List, ◌++◌, ltb, length,
  take, drop, take-append-drop, length-drop, if◌then◌else◌, arith,
}
use vms_ai.Rules.Model.{RuleTriggerLog, RuleEngine}
use vms_ai.Rules.Evaluate.{get_recent_triggers}

-- The entries are the newest ones of the log, in order, as many as asked for or as there are.
abbrev pub Newest : ℕ → List RuleTriggerLog → List RuleTriggerLog → Type 0
Newest limit log entries =
    (older : List RuleTriggerLog) × (older ++ entries ≡ log)
    × (length entries ≡ min limit (length log))

start_of :
    (n limit : ℕ)
    → (if ltb_ℤ (pos n -ℤ pos limit) (pos 0) then 0 else pos_part (pos n -ℤ pos limit)) ≡ n - limit
unfolding ◌-ℤ◌
start_of n limit = ground arith

not_past : (n limit : ℕ) → ltb n (n - limit) ≡ false
not_past n limit = ground arith

at_limit :
    (limit : ℕ) (s : RuleEngine)
    → get_recent_triggers (pos limit) s ≡ some (drop (length s.trigger_log - limit) s.trigger_log)
unfolding get_recent_triggers
at_limit limit s =
    rw
      (
        get_recent_triggers,
        start_of (length s.trigger_log) limit,
        not_past (length s.trigger_log) limit,
      )
      refl

-- With a limit from 0 up, getRecentTriggers returns that many of the newest entries, or all, in the
-- order of the log. With a negative limit, whatever the log, it starts past the end of the log.
pub get_recent_triggers-Newest :
    (limit : ℕ) (s : RuleEngine)
    → ((entries : List RuleTriggerLog) × (get_recent_triggers (pos limit) s ≡ some entries)
        × Newest limit s.trigger_log entries)
      × (get_recent_triggers (negsuc limit) s ≡ none)
unfolding get_recent_triggers ◌-ℤ◌
get_recent_triggers-Newest limit s = (
  (
    drop (length s.trigger_log - limit) s.trigger_log,
    at_limit limit s,
    (
      take (length s.trigger_log - limit) s.trigger_log,
      take-append-drop _ s.trigger_log,
      omega (arith, length-drop (length s.trigger_log - limit) s.trigger_log),
    ),
  ),
  ground arith,
)

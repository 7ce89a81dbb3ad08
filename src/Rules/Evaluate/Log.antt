-- ===== src/Rules/Evaluate/Log.antt =====
-- The trigger log of rule_engine.cpp over whole histories of events.
use vms_ai.Prelude.{
  ◌≤◌, ℤ, ◌≤ℤ◌, ◌≡◌, refl, sym, List, [], ◌∷◌, ◌++◌, arith, Bool-cases, inl, inr, length,
  length-append, ltb, subst,
}
use vms_ai.Events.{RawEvent, TimePoint}
use vms_ai.Rules.Model.{CompositeRule, RuleTriggerLog, RuleEngine}
use vms_ai.Rules.Conditions.Chaining.{NotAfter, NotBefore, Chronological, NotAfter-append}
use vms_ai.Rules.Noise.{
  check_debounce, check_rate_limit, debounce_step, rate_step, check_anti_noise,
}
use vms_ai.Rules.Evaluate.{
  push_log, tail_of, matches, suppress, trigger, evaluate_rule, evaluate_rules, evaluate_event,
  evaluate_locked, count_up,
}
use vms_ai.Rules.Evaluate.RateLimit.{Clocked}

-- At most 10000 entries, in the order of their times, none after `now`.
pub record IsLog (now : TimePoint) (ls : List RuleTriggerLog) : Type 0 where
  pub bounded : length ls ≤ 10000
  pub ordered : Chronological ls
  pub past : NotAfter now ls

NotAfter-mono :
    (t u : TimePoint) (ls : List RuleTriggerLog) → t ≤ℤ u → NotAfter t ls → NotAfter u ls
NotAfter-mono t u [] h n = tt
NotAfter-mono t u (l ∷ ls) h n = (omega arith, NotAfter-mono t u ls h n.1)

NotBefore-append :
    (t : TimePoint) (ls : List RuleTriggerLog) (m : RuleTriggerLog)
    → NotBefore t ls
    → t ≤ℤ m.triggered_at
    → NotBefore t (ls ++ m ∷ [])
NotBefore-append t [] m n h = (h, tt)
NotBefore-append t (l ∷ ls) m n h = (n.0, NotBefore-append t ls m n.1 h)

Chronological-append :
    (ls : List RuleTriggerLog) (m : RuleTriggerLog)
    → Chronological ls
    → NotAfter m.triggered_at ls
    → Chronological (ls ++ m ∷ [])
Chronological-append [] m c n = (tt, tt)
Chronological-append (l ∷ ls) m c n =
    (NotBefore-append l.triggered_at ls m c.0 n.0, Chronological-append ls m c.1 n.1)

tail-IsLog :
    (now : TimePoint) (ls : List RuleTriggerLog)
    → length ls ≤ 10001
    → Chronological ls
    → NotAfter now ls
    → IsLog now (tail_of ls)
tail-IsLog now [] b c n = record { bounded = omega arith; ordered = tt; past = tt }
tail-IsLog now (l ∷ ls) b c n = record { bounded = omega arith; ordered = c.1; past = n.1 }

push_log-IsLog :
    (now : TimePoint) (l : RuleTriggerLog) (ls : List RuleTriggerLog)
    → l.triggered_at ≡ now
    → IsLog now ls
    → IsLog now (push_log l ls)
unfolding push_log
push_log-IsLog now l ls e v = elim (Bool-cases (ltb 10000 (length (ls ++ l ∷ [])))) [
  | inl full ↦ rw full (
      tail-IsLog now (ls ++ l ∷ []) (omega (arith, length-append ls (l ∷ []), v.bounded)) ordered
        past)
  | inr room ↦ rw room (record { bounded = ground arith; ordered = ordered; past = past })
]
  where
    ordered : Chronological (ls ++ l ∷ [])
    ordered = Chronological-append ls l v.ordered (subst (λ t. NotAfter t ls) (sym e) v.past)

    past : NotAfter now (ls ++ l ∷ [])
    past = NotAfter-append now ls (l ∷ []) v.past (subst (λ t. t ≤ℤ now) (sym e) (omega arith), tt)

log-check_anti_noise :
    (rule : CompositeRule) (event : RawEvent) (now : TimePoint) (s : RuleEngine)
    → (check_anti_noise rule event now s).0.trigger_log ≡ s.trigger_log
unfolding check_anti_noise debounce_step rate_step check_debounce check_rate_limit
log-check_anti_noise rule event now s = ground arith

IsLog-suppress-trigger :
    (rule : CompositeRule) (event : RawEvent) (now : TimePoint) (s : RuleEngine)
    → IsLog now s.trigger_log
    → IsLog now (suppress rule event now s).trigger_log
      × IsLog now (trigger rule event now s).trigger_log
unfolding suppress trigger
IsLog-suppress-trigger rule event now s v =
    (push_log-IsLog now _ s.trigger_log refl v, push_log-IsLog now _ s.trigger_log refl v)

module _ (event : RawEvent) (now : TimePoint) (local : ℤ × ℤ) (log : List RuleTriggerLog) where
  evaluate_rule-IsLog :
      (rule : CompositeRule) (s : RuleEngine)
      → IsLog now s.trigger_log
      → IsLog now (evaluate_rule rule event now local log s).0.trigger_log
  unfolding evaluate_rule
  evaluate_rule-IsLog rule s v =
      let s' : RuleEngine = (check_anti_noise rule event now s).0 in
      let v' : IsLog now s'.trigger_log =
        subst (IsLog now) (sym (log-check_anti_noise rule event now s)) v in
      let pushed = IsLog-suppress-trigger rule event now s' v' in
      elim (Bool-cases (matches rule event now local log)) [
        | inr apart ↦ rw (apart, evaluate_rule) v
        | inl matched ↦ elim (Bool-cases (check_anti_noise rule event now s).1) [
          | inr held ↦ rw (matched, evaluate_rule) (rw held pushed.0)
          | inl passed ↦ rw (matched, evaluate_rule) (rw passed pushed.1)
        ]
      ]

  evaluate_rules-IsLog :
      (rules : List CompositeRule) (s : RuleEngine)
      → IsLog now s.trigger_log
      → IsLog now (evaluate_rules rules event now local log s).0.trigger_log
  unfolding evaluate_rules
  evaluate_rules-IsLog [] s v = v
  evaluate_rules-IsLog (r ∷ rules) s v =
      evaluate_rules-IsLog rules (evaluate_rule r event now local log s).0
        (evaluate_rule-IsLog r s v)

-- evaluateEvent for each event of a history.
unfoldable pub evaluate_events :
    (TimePoint → ℤ × ℤ) → List (TimePoint × RawEvent) → RuleEngine → RuleEngine
evaluate_events localtime [] s = s
evaluate_events localtime ((now, event) ∷ events) s =
    evaluate_events localtime events (evaluate_event event now localtime s).0

-- The time of the last event of a history that starts at `lo`.
abbrev pub end_of : TimePoint → List (TimePoint × RawEvent) → TimePoint
end_of lo [] = lo
end_of lo ((t, _) ∷ events) = end_of t events

-- Along any history of events on a clock that does not go back, the trigger log keeps at most 10000
-- entries and stays in the order of their times, with no entry after the last event: what the scan
-- of a RULE_TRIGGERED condition relies on.
pub evaluate_events-IsLog :
    (localtime : TimePoint → ℤ × ℤ) (events : List (TimePoint × RawEvent)) (s : RuleEngine)
    (lo : TimePoint)
    → Clocked lo events
    → IsLog lo s.trigger_log
    → IsLog (end_of lo events) (evaluate_events localtime events s).trigger_log
unfolding evaluate_events evaluate_event evaluate_locked
evaluate_events-IsLog localtime [] s lo k v = v
evaluate_events-IsLog localtime ((now, event) ∷ events) s lo k v =
    evaluate_events-IsLog localtime events (evaluate_event event now localtime s).0 now k.1 (
      evaluate_rules-IsLog event now (localtime now) s.trigger_log s.rules
        (record s { total_evaluated = count_up s.total_evaluated })
        (record {
          bounded = v.bounded;
          ordered = v.ordered;
          past = NotAfter-mono lo now s.trigger_log k.0 v.past;
        }))

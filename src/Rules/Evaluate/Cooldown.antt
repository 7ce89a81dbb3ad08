-- ===== src/Rules/Evaluate/Cooldown.antt =====
-- The cooldown of rule_engine.cpp over whole histories of events.
use vms_ai.Prelude.{
  ℤ, ◌≤ℤ◌, ◌≡◌, refl, ◌∙◌, true, false, Option, none, some, List, [], ◌∷◌, int_beq, int_beq_iff,
  if◌then◌else◌, arith, Bool-cases, inl, inr, lookup, int_eq,
}
use vms_ai.Events.{RawEvent, TimePoint}
use vms_ai.Rules.Model.{CompositeRule, RuleTriggerLog, NoiseState, RuleEngine, seconds_between}
use vms_ai.Rules.Store.{has_rule, find_rule, get_rule}
use vms_ai.Rules.Store.Valid.{Ids, IsValid}
use vms_ai.Rules.Noise.{cooled}
use vms_ai.Rules.Evaluate.{evaluate_rule, evaluate_rules, evaluate_event, evaluate_locked, count_up}
use vms_ai.Rules.Evaluate.Frame.{last_of, rules-evaluate_rule, fired-cooled, last_of-evaluate_rule}

cooled-last_of :
    (o : Option NoiseState) (c : ℤ) (t now : TimePoint)
    → last_of o ≡ some t
    → cooled o c now ≡ true
    → c ≤ℤ seconds_between t now
unfolding cooled
cooled-last_of none c t now e h = cc
cooled-last_of (some n) c t now e h = ground arith

module _ (event : RawEvent) (now : TimePoint) (local : ℤ × ℤ) (log : List RuleTriggerLog) where
  after : List CompositeRule → RuleEngine → RuleEngine
  after rules s = (evaluate_rules rules event now local log s).0

  pending : List CompositeRule → RuleEngine → List CompositeRule
  pending rules s = (evaluate_rules rules event now local log s).1

  abbrev next : CompositeRule → RuleEngine → RuleEngine
  next r s = (evaluate_rule r event now local log s).0

  pub rules-evaluate_rules :
      (rules : List CompositeRule) (s : RuleEngine)
      → (evaluate_rules rules event now local log s).0.rules ≡ s.rules
  unfolding evaluate_rules
  rules-evaluate_rules [] s = refl
  rules-evaluate_rules (r ∷ rules) s =
      rules-evaluate_rules rules (next r s) ∙ rules-evaluate_rule event now local log r s

  -- Rules of other ids leave an id alone.
  others-evaluate_rules :
      (id : ℤ) (rules : List CompositeRule) (s : RuleEngine)
      → has_rule id rules ≡ false
      → (has_rule id (pending rules s) ≡ false)
        × (last_of (lookup id (after rules s).noise_state) ≡ last_of (lookup id s.noise_state))
  unfolding evaluate_rules has_rule pending after
  others-evaluate_rules id [] s h = (refl, refl)
  others-evaluate_rules id (r ∷ rules) s h = ground (
    arith,
    others-evaluate_rules id rules (next r s),
    last_of-evaluate_rule event now local log id r s,
  )

  -- The rule of an id fires only if it has cooled down, and then its last trigger is `now`.
  fired-evaluate_rules :
      (top id : ℤ) (rule : CompositeRule) (rules : List CompositeRule) (s : RuleEngine)
      → Ids top rules
      → find_rule id rules ≡ some rule
      → last_of (lookup id (after rules s).noise_state)
        ≡ (if has_rule id (pending rules s) then some now else last_of (lookup id s.noise_state))
  unfolding evaluate_rules has_rule find_rule pending after
  fired-evaluate_rules top id rule [] s i f = cc
  fired-evaluate_rules top id rule (r ∷ rules) s i f = ground (
    arith,
    fired-evaluate_rules top id rule rules (next r s) i.2,
    others-evaluate_rules id rules (next r s),
    last_of-evaluate_rule event now local log id r s,
    int_beq_iff r.rule_id id,
  )

  cooled-evaluate_rules :
      (top id : ℤ) (rule : CompositeRule) (rules : List CompositeRule) (s : RuleEngine)
      (t : TimePoint)
      → Ids top rules
      → find_rule id rules ≡ some rule
      → has_rule id (pending rules s) ≡ true
      → last_of (lookup id s.noise_state) ≡ some t
      → rule.anti_noise.cooldown_sec ≤ℤ seconds_between t now
  unfolding evaluate_rules has_rule find_rule pending after
  cooled-evaluate_rules top id rule [] s t i f h l = cc
  cooled-evaluate_rules top id rule (r ∷ rules) s t i f h l =
      elim (Bool-cases (int_beq r.rule_id id)) [
        | inr other ↦
            cooled-evaluate_rules top id rule rules (next r s) t i.2 (ground arith) (ground arith)
              (ground (arith, last_of-evaluate_rule event now local log id r s))
        | inl same ↦ cooled-last_of (lookup id s.noise_state) rule.anti_noise.cooldown_sec t now l (
            ground (
              arith,
              others-evaluate_rules id rules (next r s),
              fired-cooled event now local log r s,
              int_beq_iff r.rule_id id,
            ))
      ]

-- The times at which the rule of an id fires along a history of events.
unfoldable pub fires :
    ℤ → (TimePoint → ℤ × ℤ) → List (TimePoint × RawEvent) → RuleEngine → List TimePoint
fires id localtime [] s = []
fires id localtime ((now, event) ∷ events) s =
    let rest = fires id localtime events (evaluate_event event now localtime s).0 in
    if has_rule id (evaluate_locked event now localtime s).1 then now ∷ rest else rest

-- From one time to the next at least `c` seconds pass.
abbrev pub Spaced : ℤ → List TimePoint → Type 0
Spaced c [] = Unit
Spaced c (t ∷ []) = Unit
Spaced c (t ∷ u ∷ ts) = (c ≤ℤ seconds_between t u) × Spaced c (u ∷ ts)

module _ (top id : ℤ) (rule : CompositeRule) (localtime : TimePoint → ℤ × ℤ) where
  -- The rule is the only one of its id.
  abbrev Found : RuleEngine → Type 0
  Found s = Ids top s.rules × (find_rule id s.rules ≡ some rule)

  evaluate_event-Found :
      (now : TimePoint) (event : RawEvent) (s : RuleEngine)
      → Found s
      → Found (evaluate_event event now localtime s).0
  unfolding evaluate_event evaluate_locked
  evaluate_event-Found now event s f =
      rw
        (rules-evaluate_rules event now (localtime now) s.trigger_log s.rules
          (record s { total_evaluated = count_up s.total_evaluated }))
        f

  last_of-evaluate_event :
      (now : TimePoint) (event : RawEvent) (s : RuleEngine)
      → Found s
      → last_of (lookup id (evaluate_event event now localtime s).0.noise_state) ≡ (
          if has_rule id (evaluate_locked event now localtime s).1
          then some now
          else last_of (lookup id s.noise_state))
  unfolding evaluate_event evaluate_locked after pending
  last_of-evaluate_event now event s f =
      fired-evaluate_rules event now (localtime now) s.trigger_log top id rule s.rules
        (record s { total_evaluated = count_up s.total_evaluated }) f.0 f.1

  cooled-evaluate_event :
      (now : TimePoint) (event : RawEvent) (s : RuleEngine) (t : TimePoint)
      → Found s
      → has_rule id (evaluate_locked event now localtime s).1 ≡ true
      → last_of (lookup id s.noise_state) ≡ some t
      → rule.anti_noise.cooldown_sec ≤ℤ seconds_between t now
  unfolding evaluate_locked pending
  cooled-evaluate_event now event s t f h l =
      cooled-evaluate_rules event now (localtime now) s.trigger_log top id rule s.rules
        (record s { total_evaluated = count_up s.total_evaluated }) t f.0 f.1 h l

  -- Behind a last trigger at `t`, the rule fires in due distance.
  fires_behind :
      (events : List (TimePoint × RawEvent)) (s : RuleEngine) (t : TimePoint)
      → Found s
      → last_of (lookup id s.noise_state) ≡ some t
      → Spaced rule.anti_noise.cooldown_sec (t ∷ fires id localtime events s)
  unfolding fires
  fires_behind [] s t f l = tt
  fires_behind ((now, event) ∷ events) s t f l =
      elim (Bool-cases (has_rule id (evaluate_locked event now localtime s).1)) [
        | inl fired ↦ rw fired (
          cooled-evaluate_event now event s t f fired l,
          fires_behind events (evaluate_event event now localtime s).0 now
              (evaluate_event-Found now event s f)
              (last_of-evaluate_event now event s f ∙ rw fired),
        )
        | inr quiet ↦ rw quiet (
            fires_behind events (evaluate_event event now localtime s).0 t
              (evaluate_event-Found now event s f)
              (last_of-evaluate_event now event s f ∙ rw quiet l))
      ]

  fires-Spaced_of_Found :
      (events : List (TimePoint × RawEvent)) (s : RuleEngine)
      → Found s
      → Spaced rule.anti_noise.cooldown_sec (fires id localtime events s)
  unfolding fires
  fires-Spaced_of_Found [] s f = tt
  fires-Spaced_of_Found ((now, event) ∷ events) s f =
      elim (Bool-cases (has_rule id (evaluate_locked event now localtime s).1)) [
        | inl fired ↦ rw fired (
            fires_behind events (evaluate_event event now localtime s).0 now
              (evaluate_event-Found now event s f)
              (last_of-evaluate_event now event s f ∙ rw fired))
        | inr quiet ↦ rw quiet (
            fires-Spaced_of_Found events (evaluate_event event now localtime s).0
              (evaluate_event-Found now event s f))
      ]

-- Along any history of events, whatever their times, their content and the other rules, two firings
-- of a rule in a row are at least its `cooldown_sec` seconds apart.
pub fires-Spaced :
    (id : ℤ) (rule : CompositeRule) (localtime : TimePoint → ℤ × ℤ)
    (events : List (TimePoint × RawEvent)) (s : RuleEngine)
    → IsValid s
    → get_rule id s ≡ some rule
    → Spaced rule.anti_noise.cooldown_sec (fires id localtime events s)
unfolding get_rule
fires-Spaced id rule localtime events s v g =
    fires-Spaced_of_Found s.next_rule_id id rule localtime events s (v.ids, g)

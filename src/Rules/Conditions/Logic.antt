-- ===== src/Rules/Conditions/Logic.antt =====
-- What the conditions of a rule ask for together, and the hours of a TIME condition.
use vms_ai.Prelude.{
  ℕ, ℤ, pos, ◌+◌, ◌-◌, ◌%◌, ◌<◌, ◌≡◌, refl, ◌↔◌, ◌⊎◌, true, List, [], ◌∷◌, leb, arith,
}
use vms_ai.Events.{RawEvent, TimePoint}
use vms_ai.Rules.Model.{RuleCondition, RuleLogic, and, or, RuleTriggerLog}
use vms_ai.Rules.Conditions.{evaluate_condition, all_hold, any_holds, evaluate_conditions, in_range}

module _ (event : RawEvent) (now : TimePoint) (local : ℤ × ℤ) (log : List RuleTriggerLog) where
  abbrev pub Holds : RuleCondition → Type 0
  Holds c = evaluate_condition c event now local log ≡ true

  abbrev pub AllHold : List RuleCondition → Type 0
  AllHold [] = Unit
  AllHold (c ∷ cs) = Holds c × AllHold cs

  abbrev pub AnyHolds : List RuleCondition → Type 0
  AnyHolds [] = ⊥
  AnyHolds (c ∷ cs) = Holds c ⊎ AnyHolds cs

  all_hold-AllHold :
      (cs : List RuleCondition) → (all_hold cs event now local log ≡ true) ↔ AllHold cs
  unfolding all_hold
  all_hold-AllHold [] = (λ _. tt, λ _. refl)
  all_hold-AllHold (c ∷ cs) =
      (λ h. ground (arith, all_hold-AllHold cs), λ h. ground (arith, all_hold-AllHold cs))

  any_holds-AnyHolds :
      (cs : List RuleCondition) → (any_holds cs event now local log ≡ true) ↔ AnyHolds cs
  unfolding any_holds
  any_holds-AnyHolds [] = (λ h. cc, λ h. absurd h)
  any_holds-AnyHolds (c ∷ cs) =
      (λ h. ground (arith, any_holds-AnyHolds cs), λ h. ground (arith, any_holds-AnyHolds cs))

  -- What a rule's conditions must fulfil.
  abbrev pub Wanted : RuleLogic → List RuleCondition → Type 0
  Wanted logic [] = Unit
  Wanted and (c ∷ cs) = AllHold (c ∷ cs)
  Wanted or (c ∷ cs) = AnyHolds (c ∷ cs)

  -- A rule with no condition matches under either logic; otherwise AND asks for every condition
  -- and OR for at least one.
  pub evaluate_conditions-Wanted :
      (cs : List RuleCondition) (logic : RuleLogic)
      → (evaluate_conditions cs logic event now local log ≡ true) ↔ Wanted logic cs
  unfolding evaluate_conditions
  evaluate_conditions-Wanted [] logic = (λ _. tt, λ _. refl)
  evaluate_conditions-Wanted (c ∷ cs) and = all_hold-AllHold (c ∷ cs)
  evaluate_conditions-Wanted (c ∷ cs) or = any_holds-AnyHolds (c ∷ cs)

-- On hours of the day, a TIME condition covers the hours that one meets going round the clock from
-- `start_hour` to `end_hour`, both included, over midnight where the range wraps.
pub in_range-clock :
    (start_hour end_hour hour : ℕ)
    → start_hour < 24
    → end_hour < 24
    → hour < 24
    → in_range (pos start_hour) (pos end_hour) (pos hour)
      ≡ leb ((hour + 24 - start_hour) % 24) ((end_hour + 24 - start_hour) % 24)
unfolding in_range
in_range-clock start_hour end_hour hour s e h = ground arith

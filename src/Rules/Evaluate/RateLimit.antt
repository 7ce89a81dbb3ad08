-- ===== src/Rules/Evaluate/RateLimit.antt =====
-- The limit on alerts per hour of rule_engine.cpp over whole histories of events.
use vms_ai.Prelude.{
  ℕ, suc, ◌≤◌, ◌<◌, ℤ, pos, pos_part, ◌-ℤ◌, ◌≤ℤ◌, -ℤ_parts, ltb_ℤ, ◌≡◌, refl, ◌∙◌, ap, Bool, true,
  some, List, [], ◌∷◌, ◌++◌, if◌then◌else◌, arith, Bool-cases, inl, inr, length, subst, int_eq,
}
use vms_ai.Events.{RawEvent, TimePoint}
use vms_ai.Rules.Model.{CompositeRule, RuleEngine}
use vms_ai.Rules.Store.{has_rule, find_rule, get_rule}
use vms_ai.Rules.Store.Valid.{Ids, IsValid}
use vms_ai.Rules.Noise.{last_hour, one_hour}
use vms_ai.Rules.Evaluate.{evaluate_event, evaluate_locked, count_up}
use vms_ai.Rules.Evaluate.Cooldown.{fires, rules-evaluate_rules}
use vms_ai.Rules.Evaluate.Window.{window, Pruned, Outcome, window-evaluate_rules}

-- How many of the times are at `from` or later.
abbrev pub since : TimePoint → List TimePoint → ℕ
since from [] = 0
since from (t ∷ ts) = let rest = since from ts in if ltb_ℤ t from then rest else suc rest

length-last_hour :
    (now : TimePoint) (ts : List TimePoint) → length (last_hour now ts) ≡ since (now -ℤ one_hour) ts
unfolding last_hour
length-last_hour now [] = refl
length-last_hour now (t ∷ ts) = ground (arith, length-last_hour now ts)

since-last_hour :
    (now c : TimePoint) (ts : List TimePoint)
    → now -ℤ one_hour ≤ℤ c
    → since c (last_hour now ts) ≡ since c ts
unfolding last_hour
since-last_hour now c [] h = refl
since-last_hour now c (t ∷ ts) h = ground (arith, since-last_hour now c ts h)

since-append : (c t : TimePoint) (ts : List TimePoint) → since c (ts ++ t ∷ []) ≡ since c (t ∷ ts)
since-append c t [] = refl
since-append c t (u ∷ ts) = ground (arith, since-append c t ts)

-- From `from` on, the window counts what was seen.
abbrev Agrees : TimePoint → List TimePoint → List TimePoint → Type 0
Agrees from w seen = (c : TimePoint) → from ≤ℤ c → since c w ≡ since c seen

Pruned-Agrees :
    (now : TimePoint) (w v seen : List TimePoint)
    → Pruned now w v
    → Agrees (now -ℤ one_hour) w seen
    → Agrees (now -ℤ one_hour) v seen
Pruned-Agrees now w v seen (inl e) a c h = ap (since c) e ∙ a c h
Pruned-Agrees now w v seen (inr e) a c h = ap (since c) e ∙ since-last_hour now c w h ∙ a c h

-- The clock does not go back along the history.
abbrev pub Clocked : TimePoint → List (TimePoint × RawEvent) → Type 0
Clocked lo [] = Unit
Clocked lo ((t, _) ∷ events) = (lo ≤ℤ t) × Clocked t events

-- At each time, at most `m` of it and the times before it lie within the hour that ends there.
abbrev pub Limited : ℕ → List TimePoint → List TimePoint → Type 0
Limited m seen [] = Unit
Limited m seen (t ∷ ts) = (since (t -ℤ one_hour) (t ∷ seen) ≤ m) × Limited m (t ∷ seen) ts

hour_back : (a b : TimePoint) → a ≤ℤ b → a -ℤ one_hour ≤ℤ b -ℤ one_hour
hour_back a b h = omega (arith, -ℤ_parts a one_hour, -ℤ_parts b one_hour)

room :
    (now : TimePoint) (w seen : List TimePoint) (m : ℕ)
    → Agrees (now -ℤ one_hour) w seen
    → length (last_hour now w) < m
    → since (now -ℤ one_hour) (now ∷ seen) ≤ m
room now w seen m a h =
    ground (arith, a (now -ℤ one_hour) (omega arith), length-last_hour now w, -ℤ_parts now one_hour)

Agrees-fired :
    (now : TimePoint) (v w' seen : List TimePoint)
    → w' ≡ v ++ now ∷ []
    → Agrees (now -ℤ one_hour) v seen
    → Agrees (now -ℤ one_hour) w' (now ∷ seen)
Agrees-fired now v w' seen e a c h = ground (arith, ap (since c) e, since-append c now v, a c h)

module _ (top id : ℤ) (rule : CompositeRule) (localtime : TimePoint → ℤ × ℤ)
    (limited : ltb_ℤ (pos 0) rule.anti_noise.max_alerts_per_hour ≡ true) where
  abbrev limit : ℕ
  limit = pos_part rule.anti_noise.max_alerts_per_hour

  abbrev Found : RuleEngine → Type 0
  Found s = Ids top s.rules × (find_rule id s.rules ≡ some rule)

  evaluate_event-Found :
      (now : TimePoint) (event : RawEvent) (s : RuleEngine)
      → Found s
      → Found (evaluate_event event now localtime s).0
  unfolding evaluate_event evaluate_locked
  evaluate_event-Found now event s f =
      rw
        (rules-evaluate_rules event now (localtime now) s.trigger_log s.rules
          (record s { total_evaluated = count_up s.total_evaluated }))
        f

  evaluate_event-Outcome :
      (now : TimePoint) (event : RawEvent) (s : RuleEngine)
      → Found s
      → Outcome now rule.anti_noise.max_alerts_per_hour
          (window id s)
          (window id (evaluate_event event now localtime s).0)
          (has_rule id (evaluate_locked event now localtime s).1)
  unfolding evaluate_event evaluate_locked
  evaluate_event-Outcome now event s f =
      window-evaluate_rules event now (localtime now) s.trigger_log top id rule s.rules
        (record s { total_evaluated = count_up s.total_evaluated }) f.0 f.1

  fires_from :
      (events : List (TimePoint × RawEvent)) (s : RuleEngine) (lo : TimePoint)
      (seen : List TimePoint)
      → Found s
      → Clocked lo events
      → Agrees (lo -ℤ one_hour) (window id s) seen
      → Limited limit seen (fires id localtime events s)
  unfolding fires
  fires_from [] s lo seen f k a = tt
  fires_from ((now, event) ∷ events) s lo seen f k a =
      elim (Bool-cases (has_rule id (evaluate_locked event now localtime s).1)) [
        | inr quiet ↦ rw quiet (
            fires_from events s' now seen (evaluate_event-Found now event s f) k.1
              (Pruned-Agrees now (window id s) (window id s') seen (outcome quiet) a'))
        | inl fired ↦
            let o : Outcome now rule.anti_noise.max_alerts_per_hour (window id s) (window id s')
                true =
              outcome fired in
            rw fired (
              room now (window id s) seen limit a' (o.3 limited),
              fires_from events s' now (now ∷ seen) (evaluate_event-Found now event s f) k.1 (
                  Agrees-fired now o.0 (window id s') seen o.2
                    (Pruned-Agrees now (window id s) o.0 seen o.1 a')),
            )
      ]
    where
      s' : RuleEngine
      s' = (evaluate_event event now localtime s).0

      outcome :
          {b : Bool}
          → has_rule id (evaluate_locked event now localtime s).1 ≡ b
          → Outcome now rule.anti_noise.max_alerts_per_hour (window id s) (window id s') b
      outcome e =
          subst (Outcome now rule.anti_noise.max_alerts_per_hour (window id s) (window id s')) e
            (evaluate_event-Outcome now event s f)

      a' : Agrees (now -ℤ one_hour) (window id s) seen
      a' c h = a c (omega (arith, hour_back lo now k.0))

-- Along any history of events on a clock that does not go back, a rule with a positive
-- `max_alerts_per_hour` and no firing on record at the start fires at most that often within any
-- hour that ends with one of its firings, that firing included.
pub fires-Limited :
    (id : ℤ) (rule : CompositeRule) (localtime : TimePoint → ℤ × ℤ)
    (events : List (TimePoint × RawEvent)) (s : RuleEngine) (lo : TimePoint)
    → IsValid s
    → get_rule id s ≡ some rule
    → ltb_ℤ (pos 0) rule.anti_noise.max_alerts_per_hour ≡ true
    → window id s ≡ []
    → Clocked lo events
    → Limited (pos_part rule.anti_noise.max_alerts_per_hour) [] (fires id localtime events s)
unfolding get_rule
fires-Limited id rule localtime events s lo v g limited fresh clocked =
    fires_from s.next_rule_id id rule localtime limited events s lo [] (v.ids, g) clocked
      (λ c h. ap (since c) fresh)

-- ===== src/Rules/Evaluate/Window.antt =====
-- What one event does to the rolling window of a rule id in rule_engine.cpp.
use vms_ai.Prelude.{
  ◌<◌, ℤ, pos, pos_part, ltb_ℤ, ◌≡◌, ◌≢◌, refl, sym, ◌∙◌, ap, ◌⊎◌, Bool, true, false, some, List,
  [], ◌∷◌, ◌++◌, int_beq, int_beq_iff, if◌then◌else◌, arith, Bool-cases, inl, inr, lookup,
  lookup-insert, int_eq, length, subst, beq_refl,
}
use vms_ai.Events.{RawEvent, TimePoint}
use vms_ai.Rules.Model.{CompositeRule, RuleTriggerLog, RuleEngine}
use vms_ai.Rules.Store.{has_rule, find_rule}
use vms_ai.Rules.Store.Valid.{Ids}
use vms_ai.Rules.Noise.{
  check_debounce, check_rate_limit, debounce_step, rate_step, check_anti_noise, last_hour,
  window_of,
}
use vms_ai.Rules.Evaluate.{matches, suppress, trigger, evaluate_rule, evaluate_rules}

abbrev pub window : ℤ → RuleEngine → List TimePoint
window id s = window_of (lookup id s.rate_window)

-- The window as it was, or pruned at `now`.
abbrev pub Pruned : TimePoint → List TimePoint → List TimePoint → Type 0
Pruned now w w' = (w' ≡ w) ⊎ (w' ≡ last_hour now w)

-- The window after an event that the rule of the limit does not fire on, or fires on.
abbrev pub Outcome : TimePoint → ℤ → List TimePoint → List TimePoint → Bool → Type 0
Outcome now limit w w' false = Pruned now w w'
Outcome now limit w w' true =
    (v : List TimePoint) × Pruned now w v
    × (w' ≡ v ++ now ∷ [])
    × (ltb_ℤ (pos 0) limit ≡ true → length (last_hour now w) < pos_part limit)

window-debounce_step :
    (id : ℤ) (rule : CompositeRule) (event : RawEvent) (now : TimePoint) (s : RuleEngine)
    → window id (debounce_step rule event now s).0 ≡ window id s
unfolding debounce_step check_debounce
window-debounce_step id rule event now s = ground arith

-- The rate limit step prunes its own window, and passes while there is room in it.
rate_step-window :
    (id : ℤ) (rule : CompositeRule) (now : TimePoint) (s : RuleEngine)
    → (rule.rule_id ≡ id → Pruned now (window id s) (window id (rate_step rule now s).0))
      × (rule.rule_id ≢ id → window id (rate_step rule now s).0 ≡ window id s)
      × ((rate_step rule now s).1 ≡ true
          → ltb_ℤ (pos 0) rule.anti_noise.max_alerts_per_hour ≡ true
          → length (last_hour now (window rule.rule_id s))
            < pos_part rule.anti_noise.max_alerts_per_hour)
unfolding rate_step check_rate_limit
rate_step-window id rule now s = (
  λ e. ground (
    arith,
    lookup-insert rule.rule_id id (last_hour now (window rule.rule_id s)) s.rate_window,
    int_beq_iff rule.rule_id id,
  ),
  λ n. ground (
    arith,
    lookup-insert rule.rule_id id (last_hour now (window rule.rule_id s)) s.rate_window,
    int_beq_iff rule.rule_id id,
  ),
  λ h p. ground arith,
)

check_anti_noise-window :
    (id : ℤ) (rule : CompositeRule) (event : RawEvent) (now : TimePoint) (s : RuleEngine)
    → (rule.rule_id ≡ id
        → Pruned now (window id s) (window id (check_anti_noise rule event now s).0))
      × (rule.rule_id ≢ id → window id (check_anti_noise rule event now s).0 ≡ window id s)
      × ((check_anti_noise rule event now s).1 ≡ true
          → ltb_ℤ (pos 0) rule.anti_noise.max_alerts_per_hour ≡ true
          → length (last_hour now (window rule.rule_id s))
            < pos_part rule.anti_noise.max_alerts_per_hour)
unfolding check_anti_noise
check_anti_noise-window id rule event now s =
    let s' : RuleEngine = (debounce_step rule event now s).0 in
    let same = window-debounce_step id rule event now s in
    let own = window-debounce_step rule.rule_id rule event now s in
    let rated = rate_step-window id rule now s' in
    (
      λ e. ground (arith, rated.0 e, same),
      λ n. ground (arith, rated.1 n, same),
      λ h p. ground (arith, rated.2, own),
    )

window-suppress :
    (id : ℤ) (rule : CompositeRule) (event : RawEvent) (now : TimePoint) (s : RuleEngine)
    → window id (suppress rule event now s) ≡ window id s
unfolding suppress
window-suppress id rule event now s = refl

window-trigger :
    (id : ℤ) (rule : CompositeRule) (event : RawEvent) (now : TimePoint) (s : RuleEngine)
    → window id (trigger rule event now s)
      ≡ (if int_beq rule.rule_id id then window id s ++ now ∷ [] else window id s)
unfolding trigger
window-trigger id rule event now s = ground (
  arith,
  lookup-insert rule.rule_id id (window rule.rule_id s ++ now ∷ []) s.rate_window,
  int_beq_iff rule.rule_id id,
)

Outcome-eq :
    (now : TimePoint) {limit limit' : ℤ} {w v w' v' : List TimePoint} {b c : Bool}
    → limit ≡ limit'
    → w ≡ v
    → w' ≡ v'
    → b ≡ c
    → Outcome now limit w w' b
    → Outcome now limit' v v' c
Outcome-eq now {limit} {limit'} {w} {v} {w'} {v'} {b} {c} l e e' f h =
    subst (λ k. Outcome now k v v' c) l
      (subst (λ x. Outcome now limit x v' c) e
        (subst (λ x. Outcome now limit w x c) e' (subst (Outcome now limit w w') f h)))

module _ (event : RawEvent) (now : TimePoint) (local : ℤ × ℤ) (log : List RuleTriggerLog) where
  other_window :
      (id : ℤ) (rule : CompositeRule) (s : RuleEngine)
      → int_beq rule.rule_id id ≡ false
      → window id (evaluate_rule rule event now local log s).0 ≡ window id s
  unfolding evaluate_rule
  other_window id rule s n = ground (
    arith,
    (check_anti_noise-window id rule event now s).1,
    int_beq_iff rule.rule_id id,
    window-suppress id rule event now (check_anti_noise rule event now s).0,
    window-trigger id rule event now (check_anti_noise rule event now s).0,
  )

  own_window :
      (rule : CompositeRule) (s : RuleEngine)
      → Outcome now rule.anti_noise.max_alerts_per_hour
          (window rule.rule_id s)
          (window rule.rule_id (evaluate_rule rule event now local log s).0)
          (evaluate_rule rule event now local log s).1
  unfolding evaluate_rule
  own_window rule s =
      let id = rule.rule_id in
      let checked = check_anti_noise rule event now s in
      let facts = check_anti_noise-window id rule event now s in
      elim (Bool-cases (matches rule event now local log)) [
        | inr apart ↦ rw (apart, evaluate_rule) (inl refl)
        | inl matched ↦ elim (Bool-cases checked.1) [
          | inr held ↦
              rw (matched, evaluate_rule)
                (rw held (
                  subst (Pruned now (window id s))
                    (sym (window-suppress id rule event now checked.0)) (facts.0 refl)))
          | inl passed ↦
              rw (matched, evaluate_rule)
                (rw passed (
                  window id checked.0,
                  facts.0 refl,
                  window-trigger id rule event now checked.0 ∙ rw (beq_refl id),
                  facts.2 passed,
                ))
        ]
      ]

  -- Rules of other ids leave the window of an id alone.
  other_windows :
      (id : ℤ) (rules : List CompositeRule) (s : RuleEngine)
      → has_rule id rules ≡ false
      → (has_rule id (evaluate_rules rules event now local log s).1 ≡ false)
        × (window id (evaluate_rules rules event now local log s).0 ≡ window id s)
  unfolding evaluate_rules has_rule
  other_windows id [] s h = (refl, refl)
  other_windows id (r ∷ rules) s h =
      ground (
        arith,
        other_windows id rules (evaluate_rule r event now local log s).0,
        other_window id r s,
      )

  -- The outcome of all rules for the window of one of them.
  pub window-evaluate_rules :
      (top id : ℤ) (rule : CompositeRule) (rules : List CompositeRule) (s : RuleEngine)
      → Ids top rules
      → find_rule id rules ≡ some rule
      → Outcome now rule.anti_noise.max_alerts_per_hour
          (window id s)
          (window id (evaluate_rules rules event now local log s).0)
          (has_rule id (evaluate_rules rules event now local log s).1)
  unfolding evaluate_rules has_rule find_rule
  window-evaluate_rules top id rule [] s i f = cc
  window-evaluate_rules top id rule (r ∷ rules) s i f = elim (Bool-cases (int_beq r.rule_id id)) [
    | inr other ↦ Outcome-eq now refl (other_window id r s other) refl (ground arith) (
        window-evaluate_rules top id rule rules (evaluate_rule r event now local log s).0 i.2
          (ground arith))
    | inl same ↦
        let id_of : r.rule_id ≡ id = (int_beq_iff r.rule_id id).0 same in
        let it : r ≡ rule = ground arith in
        let rest : has_rule id rules ≡ false = subst (λ k. has_rule k rules ≡ false) id_of i.0 in
        let others = other_windows id rules (evaluate_rule r event now local log s).0 rest in
        Outcome-eq now (ap (λ (q : CompositeRule). q.anti_noise.max_alerts_per_hour) it)
          (ap (λ k. window k s) id_of)
          (ap (λ k. window k (evaluate_rule r event now local log s).0) id_of ∙ sym others.1)
          (ground (arith, others.0)) (own_window r s)
  ]

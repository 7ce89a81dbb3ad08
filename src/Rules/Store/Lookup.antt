-- ===== src/Rules/Store/Lookup.antt =====
-- What getRule finds after a change of the rules of rule_engine.cpp.
use vms_ai.Prelude.{
  ℤ, pos, ◌≡◌, ◌≢◌, refl, ◌⊎◌, inl, inr, true, false, none, some, List, [], ◌∷◌, ◌++◌, int_beq,
  int_beq_iff, if◌then◌else◌, arith, Bool-cases, lookup, lookup-erase, int_eq,
}
use vms_ai.Events.{TimePoint}
use vms_ai.Rules.Model.{CompositeRule, RuleEngine}
use vms_ai.Rules.Store.{has_rule, push_rule, add_rule, remove_in, remove_rule, find_rule, get_rule}
use vms_ai.Rules.Store.Valid.{Ids, IsValid, below_next}

find_rule-append :
    (id : ℤ) (rs : List CompositeRule) (r : CompositeRule)
    → find_rule id (rs ++ r ∷ [])
      ≡ (if has_rule id rs then find_rule id rs else if int_beq r.rule_id id then some r else none)
unfolding find_rule has_rule
find_rule-append id [] r = refl
find_rule-append id (q ∷ rs) r = ground (arith, find_rule-append id rs r)

find_rule_missing :
    (id : ℤ) (rs : List CompositeRule) → has_rule id rs ≡ false → find_rule id rs ≡ none
unfolding find_rule has_rule
find_rule_missing id [] h = refl
find_rule_missing id (r ∷ rs) h = ground (arith, find_rule_missing id rs)

find_rule_other :
    (id j : ℤ) (rs : List CompositeRule) (r : CompositeRule)
    → r.rule_id ≡ id
    → id ≢ j
    → find_rule j (rs ++ r ∷ []) ≡ find_rule j rs
find_rule_other id j rs r e n =
    ground (arith, find_rule-append j rs r, find_rule_missing j rs, int_beq_iff r.rule_id j)

-- The id that addRule gives out was free, the rule is found under it afterwards with that id and the
-- current time, and what is found under any other id is as before. A refused rule changes nothing;
-- it is refused exactly when its own id is not 0 and taken.
pub get_rule-add_rule :
    (rule : CompositeRule) (now : TimePoint) (s : RuleEngine)
    → IsValid s
    → let (s', id) = add_rule rule now s in
      ((rule.rule_id ≢ pos 0) × (has_rule rule.rule_id s.rules ≡ true) × (s' ≡ s) × (id ≡ pos 0))
      ⊎ ((get_rule id s ≡ none)
          × (get_rule id s'
              ≡ some (record rule { rule_id = id; created_at = now; updated_at = now }))
          × ((j : ℤ) → id ≢ j → get_rule j s' ≡ get_rule j s))
unfolding add_rule push_rule get_rule
get_rule-add_rule rule now s v = elim (Bool-cases (int_beq rule.rule_id (pos 0))) [
  | inl zero_id ↦
      rw (zero_id, add_rule)
        (inr (
          added s.next_rule_id
            (below_next s.next_rule_id s.next_rule_id s.rules (omega arith) v.ids)))
  | inr own ↦ elim (Bool-cases (has_rule rule.rule_id s.rules)) [
    | inl taken ↦
        rw (own, taken, add_rule)
          (inl (λ e. ground (arith, int_beq_iff rule.rule_id (pos 0)), refl, refl, refl))
    | inr free ↦ rw (own, free, add_rule) (inr (added rule.rule_id free))
  ]
]
  where
    added :
        (id : ℤ)
        → has_rule id s.rules ≡ false
        → let r = record rule { rule_id = id; created_at = now; updated_at = now } in
          (find_rule id s.rules ≡ none)
          × (find_rule id (s.rules ++ r ∷ []) ≡ some r)
          × ((j : ℤ) → id ≢ j → find_rule j (s.rules ++ r ∷ []) ≡ find_rule j s.rules)
    added id free = (
      find_rule_missing id s.rules free,
      ground (
        arith,
        find_rule-append id s.rules
            (record rule { rule_id = id; created_at = now; updated_at = now }),
        int_beq_iff id id,
      ),
      λ j n. find_rule_other id j s.rules _ refl n,
    )

find_rule-remove_in :
    (next id j : ℤ) (rs : List CompositeRule)
    → Ids next rs
    → find_rule j (remove_in id rs) ≡ (if int_beq id j then none else find_rule j rs)
unfolding find_rule remove_in
find_rule-remove_in next id j [] i = ground arith
find_rule-remove_in next id j (r ∷ rs) i = ground (
  arith,
  find_rule-remove_in next id j rs i.2,
  find_rule_missing r.rule_id rs i.0,
  int_beq_iff r.rule_id id,
  int_beq_iff r.rule_id j,
  int_beq_iff id j,
)

-- removeRule succeeds exactly on an id in use. It takes away the rule and its cooldown and rate
-- state, and what is found under any other id is as before.
pub get_rule-remove_rule :
    (id : ℤ) (s : RuleEngine)
    → IsValid s
    → ((remove_rule id s).1 ≡ has_rule id s.rules)
      × ((j : ℤ) → get_rule j (remove_rule id s).0 ≡ (if int_beq id j then none else get_rule j s))
      × (has_rule id s.rules ≡ true
          → (lookup id (remove_rule id s).0.noise_state ≡ none)
            × (lookup id (remove_rule id s).0.rate_window ≡ none))
unfolding remove_rule get_rule
get_rule-remove_rule id s v = elim (Bool-cases (has_rule id s.rules)) [
  | inl there ↦
      rw (there, remove_rule)
        (
          refl,
          λ j. find_rule-remove_in s.next_rule_id id j s.rules v.ids,
          λ _. (
            ground (arith, lookup-erase id id s.noise_state, int_beq_iff id id),
            ground (arith, lookup-erase id id s.rate_window, int_beq_iff id id),
          ),
        )
  | inr missing ↦
      rw (missing, remove_rule)
        (refl, λ j. ground (arith, find_rule_missing id s.rules, int_beq_iff id j), λ e. cc)
]

-- ===== src/Rules/Store/Ids.antt =====
-- The ids that the rule CRUD of rule_engine.cpp hands out.
use vms_ai.Prelude.{
  ◌⊎◌, Option, none, some, ℤ, pos, ◌+ℤ◌, ◌≤ℤ◌, ltb_ℤ, +ℤ_parts, ◌≡◌, refl, inl, inr, true, false,
  List, [], ◌∷◌, ◌++◌, int_beq, if◌then◌else◌, arith, Bool-cases,
}
use vms_ai.Events.{TimePoint}
use vms_ai.Rules.Model.{CompositeRule, RuleEngine}
use vms_ai.Rules.Store.{has_rule, push_rule, add_rule, update_rule, remove_rule, get_next_rule_id}
use vms_ai.Rules.Store.Valid.{
  IsValid, below_next, Change, adds, updates, removes, reserves, change, changes, change-IsValid,
}

-- The id that a change hands out, of a rule that is added (addRule returns 0 where it refuses one) or
-- reserved.
abbrev pub unless_zero : ℤ → Option ℤ
unless_zero id = if int_beq id (pos 0) then none else some id

abbrev pub handed_out : RuleEngine → Change → Option ℤ
handed_out s (adds rule now) = unless_zero (add_rule rule now s).1
handed_out s (updates rule now) = none
handed_out s (removes id) = none
handed_out s reserves = some (get_next_rule_id s).1

abbrev pub IsUnused : List CompositeRule → Option ℤ → Type 0
IsUnused rs none = Unit
IsUnused rs (some id) = has_rule id rs ≡ false

-- No id that is handed out is that of a rule at that time.
abbrev pub AreUnused : RuleEngine → List Change → Type 0
AreUnused s [] = Unit
AreUnused s (c ∷ cs) = IsUnused s.rules (handed_out s c) × AreUnused (change s c) cs

-- The ids that the engine chooses itself, in order.
abbrev pub chosen : RuleEngine → Change → List ℤ
chosen s (adds rule now) = if int_beq rule.rule_id (pos 0) then (add_rule rule now s).1 ∷ [] else []
chosen s (updates rule now) = []
chosen s (removes id) = []
chosen s reserves = (get_next_rule_id s).1 ∷ []

abbrev pub all_chosen : RuleEngine → List Change → List ℤ
all_chosen s [] = []
all_chosen s (c ∷ cs) = chosen s c ++ all_chosen (change s c) cs

-- Each is at least `lo` and greater than the one before.
abbrev pub IsAscending : ℤ → List ℤ → Type 0
IsAscending lo [] = Unit
IsAscending lo (id ∷ ids) = (lo ≤ℤ id) × IsAscending (id +ℤ pos 1) ids

unless_zero-IsUnused :
    (id : ℤ) (rs : List CompositeRule) → has_rule id rs ≡ false → IsUnused rs (unless_zero id)
unless_zero-IsUnused id rs h = elim (Bool-cases (int_beq id (pos 0))) [
  | inl b ↦ rw b tt
  | inr b ↦ rw b h
]

handed_out-IsUnused : (s : RuleEngine) (c : Change) → IsValid s → IsUnused s.rules (handed_out s c)
unfolding get_next_rule_id add_rule push_rule
handed_out-IsUnused s (adds rule now) v = elim (Bool-cases (int_beq rule.rule_id (pos 0))) [
  | inl zero_id ↦
      rw (zero_id, add_rule)
        (unless_zero-IsUnused s.next_rule_id s.rules
          (below_next s.next_rule_id s.next_rule_id s.rules (omega arith) v.ids))
  | inr own ↦ elim (Bool-cases (has_rule rule.rule_id s.rules)) [
    | inl taken ↦ rw (own, taken, add_rule) tt
    | inr free ↦ rw (own, free, add_rule) (unless_zero-IsUnused rule.rule_id s.rules free)
  ]
]
handed_out-IsUnused s (updates rule now) v = tt
handed_out-IsUnused s (removes id) v = tt
handed_out-IsUnused s reserves v =
    below_next s.next_rule_id s.next_rule_id s.rules (omega arith) v.ids

IsAscending-mono : (m n : ℤ) (ids : List ℤ) → m ≤ℤ n → IsAscending n ids → IsAscending m ids
IsAscending-mono m n [] h a = tt
IsAscending-mono m n (id ∷ ids) h a = (omega arith, a.1)

add_rule_next :
    (rule : CompositeRule) (now : TimePoint) (s : RuleEngine)
    → (int_beq rule.rule_id (pos 0) ≡ true)
        × ((add_rule rule now s).1 ≡ s.next_rule_id)
        × (s.next_rule_id +ℤ pos 1 ≤ℤ (add_rule rule now s).0.next_rule_id)
      ⊎ (int_beq rule.rule_id (pos 0) ≡ false)
        × (s.next_rule_id ≤ℤ (add_rule rule now s).0.next_rule_id)
unfolding add_rule push_rule
add_rule_next rule now s = elim (Bool-cases (int_beq rule.rule_id (pos 0))) [
  | inl zero_id ↦
      let next : ltb_ℤ s.next_rule_id (s.next_rule_id +ℤ pos 1) ≡ true =
        ground (arith, +ℤ_parts s.next_rule_id (pos 1)) in
      inl (zero_id, rw (zero_id, add_rule) refl, rw (zero_id, add_rule, next) (omega arith))
  | inr own ↦ elim (Bool-cases (has_rule rule.rule_id s.rules)) [
    | inl taken ↦ inr (own, rw (own, taken, add_rule) (omega arith))
    | inr free ↦ inr (own, rw (own, free, add_rule) (ground (arith, +ℤ_parts rule.rule_id (pos 1))))
  ]
]

chosen-IsAscending :
    (s : RuleEngine) (c : Change) (ids : List ℤ)
    → IsAscending (change s c).next_rule_id ids
    → IsAscending s.next_rule_id (chosen s c ++ ids)
unfolding change get_next_rule_id update_rule remove_rule
chosen-IsAscending s (adds rule now) ids a = elim (add_rule_next rule now s) [
  | inl (zero_id, id, up) ↦
      rw (zero_id, id) (omega arith, IsAscending-mono (s.next_rule_id +ℤ pos 1) _ ids up a)
  | inr (own, up) ↦ rw own (IsAscending-mono s.next_rule_id _ ids up a)
]
chosen-IsAscending s (updates rule now) ids a = a
chosen-IsAscending s (removes id) ids a =
    IsAscending-mono s.next_rule_id (remove_rule id s).0.next_rule_id ids (ground arith) a
chosen-IsAscending s reserves ids a = (omega arith, a)

-- Whatever rules are added, updated and removed and whatever ids are reserved, in any order, no two
-- rules come to share an id, every id in use is below the next one to be given out, and that one is
-- at least 1. No id that addRule returns for a rule it takes, or that getNextRuleId returns, is that of
-- a rule at that time. The ids that the engine chooses itself start at its next id or above, and each
-- is greater than all before it, so that none is given out twice.
pub changes-IsValid :
    (s : RuleEngine) (cs : List Change)
    → IsValid s
    → IsValid (changes s cs) × AreUnused s cs × IsAscending s.next_rule_id (all_chosen s cs)
unfolding changes
changes-IsValid s [] v = (v, tt, tt)
changes-IsValid s (c ∷ cs) v =
    let (valid, unused, ascending) = changes-IsValid (change s c) cs (change-IsValid s c v) in
    (
      valid,
      (handed_out-IsUnused s c v, unused),
      chosen-IsAscending s c (all_chosen (change s c) cs) ascending,
    )

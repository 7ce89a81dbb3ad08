-- ===== src/Rules/Store/Valid.antt =====
-- Every change of rule_engine.cpp's rule CRUD keeps the rule ids unique and below the next one.
use vms_ai.Prelude.{
  ℤ, pos, ◌+ℤ◌, ◌≤ℤ◌, ltb_ℤ, pos_part, neg_part, +ℤ_parts, ◌+◌, ◌<◌, ◌≡◌, refl, inl, inr, true,
  false, List, [], ◌∷◌, ◌++◌, int_beq, int_beq_iff, if◌then◌else◌, arith, Bool-cases, int_laws,
}
use vms_ai.Events.{TimePoint}
use vms_ai.Rules.Model.{CompositeRule, RuleEngine}
use vms_ai.Rules.Store.{
  has_rule, push_rule, add_rule, update_in, update_rule, remove_in, remove_rule, get_next_rule_id,
}

-- No id stands twice, and each is below the next id to be given out.
abbrev pub Ids : ℤ → List CompositeRule → Type 0
Ids next [] = Unit
Ids next (r ∷ rs) =
    (has_rule r.rule_id rs ≡ false)
    × (pos_part r.rule_id + neg_part next < pos_part next + neg_part r.rule_id)
    × Ids next rs

pub record IsValid (s : RuleEngine) : Type 0 where
  pub ids : Ids s.next_rule_id s.rules
  pub positive : pos 1 ≤ℤ s.next_rule_id

Ids-mono : (m n : ℤ) (rs : List CompositeRule) → m ≤ℤ n → Ids m rs → Ids n rs
Ids-mono m n [] h i = tt
Ids-mono m n (r ∷ rs) h i = (i.0, omega arith, Ids-mono m n rs h i.2)

has_rule-append :
    (id : ℤ) (rs : List CompositeRule) (r : CompositeRule)
    → has_rule id (rs ++ r ∷ []) ≡ (if int_beq r.rule_id id then true else has_rule id rs)
unfolding has_rule
has_rule-append id [] r = refl
has_rule-append id (q ∷ rs) r = ground (arith, has_rule-append id rs r)

pub below_next :
    (id next : ℤ) (rs : List CompositeRule) → next ≤ℤ id → Ids next rs → has_rule id rs ≡ false
unfolding has_rule
below_next id next [] h i = refl
below_next id next (r ∷ rs) h i =
    ground (arith, below_next id next rs h i.2, int_beq_iff r.rule_id id)

Ids-append :
    (next : ℤ) (rs : List CompositeRule) (r : CompositeRule)
    → Ids next rs
    → has_rule r.rule_id rs ≡ false
    → pos_part r.rule_id + neg_part next < pos_part next + neg_part r.rule_id
    → Ids next (rs ++ r ∷ [])
unfolding has_rule
Ids-append next [] r i h b = (refl, b, tt)
Ids-append next (q ∷ rs) r i h b = (
  ground (
    arith,
    has_rule-append q.rule_id rs r,
    int_beq_iff r.rule_id q.rule_id,
    int_beq_iff q.rule_id r.rule_id,
  ),
  i.1,
  Ids-append next rs r i.2 (ground arith) b,
)

over : (m id next : ℤ) → m ≤ℤ next → ltb_ℤ id next ≡ false → m ≤ℤ (id +ℤ pos 1)
over m id next up high = ground (arith, +ℤ_parts id (pos 1))

over_one : (id next : ℤ) → pos 1 ≤ℤ next → ltb_ℤ id next ≡ false → pos 1 ≤ℤ (id +ℤ pos 1)
over_one id next p high = ground (arith, +ℤ_parts id (pos 1))

add_rule-IsValid :
    (rule : CompositeRule) (now : TimePoint) (s : RuleEngine)
    → IsValid s
    → IsValid (add_rule rule now s).0
unfolding add_rule push_rule
add_rule-IsValid rule now s v = elim (Bool-cases (int_beq rule.rule_id (pos 0))) [
  | inl zero_id ↦
      rw (zero_id, add_rule)
        (added s.next_rule_id (s.next_rule_id +ℤ pos 1) (omega int_laws) (omega int_laws)
          (below_next s.next_rule_id s.next_rule_id s.rules (omega arith) v.ids))
  | inr own ↦ elim (Bool-cases (has_rule rule.rule_id s.rules)) [
    | inl taken ↦ rw (own, taken, add_rule) v
    | inr free ↦
        rw (own, free, add_rule)
          (added rule.rule_id s.next_rule_id (omega int_laws) v.positive free)
  ]
]
  where
    added :
        (id next : ℤ)
        → s.next_rule_id ≤ℤ next
        → pos 1 ≤ℤ next
        → has_rule id s.rules ≡ false
        → IsValid (record s {
          rules = s.rules ++ record rule { rule_id = id; created_at = now; updated_at = now } ∷ [];
          next_rule_id = if ltb_ℤ id next then next else id +ℤ pos 1;
        })
    added id next up p free = elim (Bool-cases (ltb_ℤ id next)) [
      | inl low ↦ rw low (record {
        ids =
            Ids-append next s.rules _ (Ids-mono s.next_rule_id next s.rules up v.ids) free
              (ground arith);
        positive = p;
      })
      | inr high ↦ rw high (record {
        ids =
            Ids-append (id +ℤ pos 1) s.rules _
              (Ids-mono s.next_rule_id (id +ℤ pos 1) s.rules (over s.next_rule_id id next up high)
                v.ids)
              free (omega int_laws);
        positive = over_one id next p high;
      })
    ]

has_rule-update_in :
    (id : ℤ) (rule : CompositeRule) (now : TimePoint) (rs : List CompositeRule)
    → has_rule id (update_in rule now rs) ≡ has_rule id rs
unfolding has_rule update_in
has_rule-update_in id rule now [] = refl
has_rule-update_in id rule now (r ∷ rs) =
    ground (arith, has_rule-update_in id rule now rs, int_beq_iff r.rule_id rule.rule_id)

update_in-Ids :
    (next : ℤ) (rule : CompositeRule) (now : TimePoint) (rs : List CompositeRule)
    → Ids next rs
    → Ids next (update_in rule now rs)
unfolding update_in
update_in-Ids next rule now [] i = tt
update_in-Ids next rule now (r ∷ rs) i = ground (
  arith,
  update_in-Ids next rule now rs i.2,
  has_rule-update_in r.rule_id rule now rs,
  int_beq_iff r.rule_id rule.rule_id,
)

has_rule-remove_in :
    (id j : ℤ) (rs : List CompositeRule)
    → has_rule id rs ≡ false
    → has_rule id (remove_in j rs) ≡ false
unfolding has_rule remove_in
has_rule-remove_in id j [] h = refl
has_rule-remove_in id j (r ∷ rs) h = ground (arith, has_rule-remove_in id j rs)

remove_in-Ids : (next j : ℤ) (rs : List CompositeRule) → Ids next rs → Ids next (remove_in j rs)
unfolding remove_in
remove_in-Ids next j [] i = tt
remove_in-Ids next j (r ∷ rs) i =
    ground (arith, remove_in-Ids next j rs i.2, has_rule-remove_in r.rule_id j rs)

pub data Change : Type 0 where
  adds updates : CompositeRule → TimePoint → Change
  removes : ℤ → Change
  reserves : Change

unfoldable pub change : RuleEngine → Change → RuleEngine
change s (adds rule now) = (add_rule rule now s).0
change s (updates rule now) = (update_rule rule now s).0
change s (removes id) = (remove_rule id s).0
change s reserves = (get_next_rule_id s).0

unfoldable pub changes : RuleEngine → List Change → RuleEngine
changes s [] = s
changes s (c ∷ cs) = changes (change s c) cs

pub change-IsValid : (s : RuleEngine) (c : Change) → IsValid s → IsValid (change s c)
unfolding change update_rule remove_rule get_next_rule_id
change-IsValid s (adds rule now) v = add_rule-IsValid rule now s v
change-IsValid s (updates rule now) v = record {
  ids = update_in-Ids s.next_rule_id rule now s.rules v.ids;
  positive = v.positive;
}
change-IsValid s (removes id) v = elim (Bool-cases (has_rule id s.rules)) [
  | inl there ↦
      rw (there, change, remove_rule)
        (record { ids = remove_in-Ids s.next_rule_id id s.rules v.ids; positive = v.positive })
  | inr missing ↦ rw (missing, change, remove_rule) v
]
change-IsValid s reserves v = record {
  ids = Ids-mono s.next_rule_id (s.next_rule_id +ℤ pos 1) s.rules (omega int_laws) v.ids;
  positive = omega int_laws;
}

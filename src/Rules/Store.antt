-- ===== src/Rules/Store.antt =====
-- The rule CRUD of rule_engine.cpp.
pub mod Valid
pub mod Ids
pub mod Lookup
use vms_ai.Prelude.{
  ℤ, pos, ◌+ℤ◌, ltb_ℤ, Bool, true, false, not, ◌&&◌, Option, none, some, List, [], ◌∷◌, ◌++◌,
  int_beq, if◌then◌else◌, erase, int_eq,
}
use vms_ai.Events.{TimePoint}
use vms_ai.Rules.Model.{CompositeRule, RuleEngine}

-- Some rule has the id.
unfoldable pub has_rule : ℤ → List CompositeRule → Bool
has_rule id [] = false
has_rule id (r ∷ rs) = if int_beq r.rule_id id then true else has_rule id rs

-- addRule behind its test: the copy with its id and times, pushed back.
unfoldable pub push_rule : CompositeRule → TimePoint → RuleEngine → RuleEngine × ℤ
push_rule rule now s =
    let id = if int_beq rule.rule_id (pos 0) then s.next_rule_id else rule.rule_id in
    let next = if int_beq rule.rule_id (pos 0) then s.next_rule_id +ℤ pos 1 else s.next_rule_id in
    (
      record s {
        rules = s.rules ++ record rule { rule_id = id; created_at = now; updated_at = now } ∷ [];
        next_rule_id = if ltb_ℤ id next then next else id +ℤ pos 1;
      },
      id,
    )

unfoldable pub add_rule : CompositeRule → TimePoint → RuleEngine → RuleEngine × ℤ
add_rule rule now s =
    if not (int_beq rule.rule_id (pos 0)) && has_rule rule.rule_id s.rules
    then (s, pos 0)
    else push_rule rule now s

-- The loop of updateRule: the first rule of the id is overwritten.
unfoldable pub update_in : CompositeRule → TimePoint → List CompositeRule → List CompositeRule
update_in rule now [] = []
update_in rule now (r ∷ rs) =
    if int_beq r.rule_id rule.rule_id
    then record rule { updated_at = now } ∷ rs
    else r ∷ update_in rule now rs

unfoldable pub update_rule : CompositeRule → TimePoint → RuleEngine → RuleEngine × Bool
update_rule rule now s =
    (record s { rules = update_in rule now s.rules }, has_rule rule.rule_id s.rules)

-- find_if and erase
unfoldable pub remove_in : ℤ → List CompositeRule → List CompositeRule
remove_in id [] = []
remove_in id (r ∷ rs) = if int_beq r.rule_id id then rs else r ∷ remove_in id rs

unfoldable pub remove_rule : ℤ → RuleEngine → RuleEngine × Bool
remove_rule id s =
    if has_rule id s.rules
    then (
      record s {
        rules = remove_in id s.rules;
        noise_state = erase id s.noise_state;
        rate_window = erase id s.rate_window;
      },
      true,
    )
    else (s, false)

-- The loop of getRule.
unfoldable pub find_rule : ℤ → List CompositeRule → Option CompositeRule
find_rule id [] = none
find_rule id (r ∷ rs) = if int_beq r.rule_id id then some r else find_rule id rs

unfoldable pub get_rule : ℤ → RuleEngine → Option CompositeRule
get_rule id s = find_rule id s.rules

unfoldable pub get_next_rule_id : RuleEngine → RuleEngine × ℤ
get_next_rule_id s = (record s { next_rule_id = s.next_rule_id +ℤ pos 1 }, s.next_rule_id)

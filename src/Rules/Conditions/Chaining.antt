-- ===== src/Rules/Conditions/Chaining.antt =====
-- Chained rules: the backward scan of the trigger log in rule_engine.cpp.
use mathlib.Core.List.{reverse, reverse-cons}
use vms_ai.Prelude.{
  leb_ℤ, ℕ, ℤ, pos, negsuc, suc, zero, ◌/◌, ◌-ℤ◌, -ℤ_parts, ◌≤ℤ◌, ltb_ℤ, pos_part, neg_part, ◌≡◌,
  refl, ◌∙◌, Bool, false, ◌&&◌, ◌||◌, List, [], ◌∷◌, ◌++◌, int_beq, arith,
}
use vms_ai.Events.{RawEvent, TimePoint}
use vms_ai.Rules.Model.{
  RuleCondition, rule_triggered, RuleTriggerLog, seconds_between, to_seconds, neg_of,
  ticks_per_second,
}
use vms_ai.Rules.Conditions.{recently_triggered, evaluate_switch, evaluate_condition}

neg_of_parts : (n : ℕ) → (pos_part (neg_of n) ≡ 0) × (neg_part (neg_of n) ≡ n)
neg_of_parts zero = (refl, refl)
neg_of_parts (suc n) = (refl, refl)

to_seconds_mono : (a b : ℤ) → a ≤ℤ b → to_seconds a ≤ℤ to_seconds b
unfolding to_seconds
to_seconds_mono (pos a) (pos b) h = omega arith
to_seconds_mono (pos a) (negsuc b) h = absurd (omega arith)
to_seconds_mono (negsuc a) (pos b) h = omega (arith, neg_of_parts (suc a / ticks_per_second))
to_seconds_mono (negsuc a) (negsuc b) h =
    omega (arith, neg_of_parts (suc a / ticks_per_second), neg_of_parts (suc b / ticks_per_second))

-- An earlier time point is at least as many seconds ago.
seconds_between_mono :
    (t u now : TimePoint) → t ≤ℤ u → seconds_between u now ≤ℤ seconds_between t now
seconds_between_mono t u now h =
    to_seconds_mono (now -ℤ u) (now -ℤ t) (omega (arith, -ℤ_parts now u, -ℤ_parts now t))

-- The entry is one of the referenced rule, on the camera, within the chaining window.
abbrev pub is_recent : RuleCondition → ℤ → TimePoint → RuleTriggerLog → Bool
is_recent cond camera_id now l =
    int_beq l.rule_id cond.referenced_rule_id
    && (int_beq l.camera_id camera_id
        && leb_ℤ (seconds_between l.triggered_at now) cond.chaining_window_sec)

abbrev pub any_recent : RuleCondition → ℤ → TimePoint → List RuleTriggerLog → Bool
any_recent cond camera_id now [] = false
any_recent cond camera_id now (l ∷ ls) =
    is_recent cond camera_id now l || any_recent cond camera_id now ls

abbrev pub NotAfter : TimePoint → List RuleTriggerLog → Type 0
NotAfter t [] = Unit
NotAfter t (l ∷ ls) = (l.triggered_at ≤ℤ t) × NotAfter t ls

abbrev pub NotBefore : TimePoint → List RuleTriggerLog → Type 0
NotBefore t [] = Unit
NotBefore t (l ∷ ls) = (t ≤ℤ l.triggered_at) × NotBefore t ls

-- The newest entry first.
abbrev Falling : List RuleTriggerLog → Type 0
Falling [] = Unit
Falling (l ∷ ls) = NotAfter l.triggered_at ls × Falling ls

-- The log in the order in which its entries were pushed, by a clock that does not go back.
abbrev pub Chronological : List RuleTriggerLog → Type 0
Chronological [] = Unit
Chronological (l ∷ ls) = NotBefore l.triggered_at ls × Chronological ls

module _ (cond : RuleCondition) (camera_id : ℤ) (now : TimePoint) where
  -- Behind an entry that is too old stand only entries that are too old.
  any_recent_stale :
      (t : TimePoint) (ls : List RuleTriggerLog)
      → NotAfter t ls
      → leb_ℤ (seconds_between t now) cond.chaining_window_sec ≡ false
      → any_recent cond camera_id now ls ≡ false
  any_recent_stale t [] older stale = refl
  any_recent_stale t (l ∷ ls) older stale = ground (
    arith,
    any_recent_stale t ls older.1 stale,
    seconds_between_mono l.triggered_at t now older.0,
  )

  recently_triggered-any_recent :
      (ls : List RuleTriggerLog)
      → Falling ls
      → recently_triggered cond camera_id now ls ≡ any_recent cond camera_id now ls
  unfolding recently_triggered
  recently_triggered-any_recent [] f = refl
  recently_triggered-any_recent (l ∷ ls) f =
      ground (arith, recently_triggered-any_recent ls f.1, any_recent_stale l.triggered_at ls f.0)

  any_recent-append :
      (xs ys : List RuleTriggerLog)
      → any_recent cond camera_id now (xs ++ ys)
        ≡ (any_recent cond camera_id now xs || any_recent cond camera_id now ys)
  any_recent-append [] ys = refl
  any_recent-append (x ∷ xs) ys = ground (arith, any_recent-append xs ys)

  any_recent-reverse :
      (xs : List RuleTriggerLog)
      → any_recent cond camera_id now (reverse xs) ≡ any_recent cond camera_id now xs
  any_recent-reverse [] = refl
  any_recent-reverse (x ∷ xs) =
      rw (reverse-cons x xs)
        (ground (arith, any_recent-append (reverse xs) (x ∷ []), any_recent-reverse xs))

pub NotAfter-append :
    (t : TimePoint) (xs ys : List RuleTriggerLog)
    → NotAfter t xs
    → NotAfter t ys
    → NotAfter t (xs ++ ys)
NotAfter-append t [] ys hx hy = hy
NotAfter-append t (x ∷ xs) ys hx hy = (hx.0, NotAfter-append t xs ys hx.1 hy)

Falling-append :
    (xs : List RuleTriggerLog) (y : RuleTriggerLog)
    → Falling xs
    → NotBefore y.triggered_at xs
    → Falling (xs ++ y ∷ [])
Falling-append [] y f b = (tt, tt)
Falling-append (x ∷ xs) y f b =
    (NotAfter-append x.triggered_at xs (y ∷ []) f.0 (b.0, tt), Falling-append xs y f.1 b.1)

NotBefore-append :
    (t : TimePoint) (xs ys : List RuleTriggerLog)
    → NotBefore t xs
    → NotBefore t ys
    → NotBefore t (xs ++ ys)
NotBefore-append t [] ys hx hy = hy
NotBefore-append t (x ∷ xs) ys hx hy = (hx.0, NotBefore-append t xs ys hx.1 hy)

NotBefore-reverse :
    (t : TimePoint) (xs : List RuleTriggerLog) → NotBefore t xs → NotBefore t (reverse xs)
NotBefore-reverse t [] h = tt
NotBefore-reverse t (x ∷ xs) h =
    rw (reverse-cons x xs)
      (NotBefore-append t (reverse xs) (x ∷ []) (NotBefore-reverse t xs h.1) (h.0, tt))

reverse-Falling : (xs : List RuleTriggerLog) → Chronological xs → Falling (reverse xs)
reverse-Falling [] c = tt
reverse-Falling (x ∷ xs) c = rw (reverse-cons x xs) (
    Falling-append (reverse xs) x (reverse-Falling xs c.1)
      (NotBefore-reverse x.triggered_at xs c.0))

-- On a chronological log, a RULE_TRIGGERED condition on a rule id from 0 up holds exactly when the
-- log, fired and suppressed entries alike, has an entry of that rule on the event's camera at most
-- `chaining_window_sec` seconds old: the scan that stops at the first entry too old misses none.
pub rule_triggered-any_recent :
    (cond : RuleCondition) (event : RawEvent) (now : TimePoint) (local : ℤ × ℤ)
    (log : List RuleTriggerLog)
    → cond.type ≡ rule_triggered
    → ltb_ℤ cond.referenced_rule_id (pos 0) ≡ false
    → Chronological log
    → evaluate_condition cond event now local log ≡ any_recent cond event.camera_id now log
unfolding evaluate_condition evaluate_switch recently_triggered
rule_triggered-any_recent cond event now local log chained known c =
    rw (chained, evaluate_condition)
      (rw (known, evaluate_switch)
        (recently_triggered-any_recent cond event.camera_id now (reverse log)
            (reverse-Falling log c)
          ∙ any_recent-reverse cond event.camera_id now log))

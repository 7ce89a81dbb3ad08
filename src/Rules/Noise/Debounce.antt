-- ===== src/Rules/Noise/Debounce.antt =====
-- The debounce of rule_engine.cpp over the observations of one rule on one camera.
use vms_ai.Prelude.{
  leb_ℤ, ℤ, ◌≤ℤ◌, ltb_ℤ, ◌≡◌, refl, true, false, Option, none, some, List, [], ◌∷◌, arith, pair_eq,
  lookup, lookup-insert_self, Bool-cases, inl, inr,
}
use vms_ai.Events.{TimePoint}
use vms_ai.Rules.Model.{NoiseState, RuleEngine, seconds_between}
use vms_ai.Rules.Noise.{debounce, check_debounce}

-- A run of observations, back from the newest at `t` to `first`, with no gap above `d` seconds.
-- `earlier` holds the observations before `t`, the newest first.
pub data Streak (d : ℤ) : TimePoint → List TimePoint → TimePoint → Type 0 where
  alone : (t : TimePoint) (earlier : List TimePoint) → Streak d t earlier t
  behind :
      (t u : TimePoint) (earlier : List TimePoint) (first : TimePoint)
      → seconds_between u t ≤ℤ d
      → Streak d u earlier first
      → Streak d t (u ∷ earlier) first

module _ (rule_id camera_id d : ℤ) where
  -- The engine after checkDebounce at each of the times, the newest first.
  unfoldable pub observe : List TimePoint → RuleEngine → RuleEngine
  observe [] s = s
  observe (t ∷ earlier) s = (check_debounce rule_id camera_id d t (observe earlier s)).0

  abbrev state : List TimePoint → RuleEngine → Option NoiseState
  state ts s = lookup (rule_id, camera_id) (observe ts s).debounce_state

  -- What the state under the key says of the observations.
  abbrev Tells : List TimePoint → Option NoiseState → Type 0
  Tells [] o = o ≡ none
  Tells (t ∷ earlier) none = ⊥
  Tells (t ∷ earlier) (some n) = (n.last_seen ≡ t) × Streak d t earlier n.first_seen

  state-observe :
      (t : TimePoint) (earlier : List TimePoint) (s : RuleEngine)
      → state (t ∷ earlier) s ≡ some (debounce (state earlier s) d t).0
  unfolding observe check_debounce
  state-observe t earlier s =
      lookup-insert_self (rule_id, camera_id) (debounce (state earlier s) d t).0
        (observe earlier s).debounce_state

  gap :
      (t u : TimePoint) (earlier : List TimePoint) (n : NoiseState)
      → n.last_seen ≡ u
      → Streak d u earlier n.first_seen
      → ltb_ℤ d (seconds_between n.last_seen t) ≡ false
      → Streak d t (u ∷ earlier) n.first_seen
  gap t u earlier n e k small = behind t u earlier n.first_seen (ground arith) k

  Tells-debounce :
      (t : TimePoint) (earlier : List TimePoint) (o : Option NoiseState)
      → Tells earlier o
      → Tells (t ∷ earlier) (some (debounce o d t).0)
        × ((debounce o d t).1 ≡ true
            → (first : TimePoint) × Streak d t earlier first × (d ≤ℤ seconds_between first t))
  unfolding debounce
  Tells-debounce t [] none h = ((refl, alone t []), λ e. cc)
  Tells-debounce t (u ∷ earlier) (some n) h =
      elim (Bool-cases (ltb_ℤ d (seconds_between n.last_seen t))) [
        | inl broken ↦ rw (broken, debounce) ((refl, alone t (u ∷ earlier)), λ e. cc)
        | inr small ↦
            let k : Streak d t (u ∷ earlier) n.first_seen = gap t u earlier n h.0 h.1 small in
            elim (Bool-cases (leb_ℤ d (seconds_between n.first_seen t))) [
              | inl long ↦
                  rw (small, debounce)
                    (rw long ((refl, alone t (u ∷ earlier)), λ e. (n.first_seen, k, ground arith)))
              | inr short ↦ rw (small, debounce) (rw short ((refl, k), λ e. cc))
            ]
      ]
  Tells-debounce t [] (some n) h = cc
  Tells-debounce t (u ∷ earlier) none h = absurd h

  Tells-observe :
      (ts : List TimePoint) (s : RuleEngine)
      → lookup (rule_id, camera_id) s.debounce_state ≡ none
      → Tells ts (state ts s)
  unfolding observe
  Tells-observe [] s h = h
  Tells-observe (t ∷ earlier) s h =
      rw (state-observe t earlier s)
        (Tells-debounce t earlier (state earlier s) (Tells-observe earlier s h)).0

-- From an engine with nothing on record for the rule on the camera, and whatever observations of it
-- there were before, checkDebounce passes at the time `t` only behind a run of observations that
-- ends at `t`, that has no gap above `debounce_sec` seconds and whose first observation is at least
-- `debounce_sec` seconds old. So a first or isolated event never passes a positive debounce.
pub check_debounce-Streak :
    (rule_id camera_id d : ℤ) (t : TimePoint) (earlier : List TimePoint) (s : RuleEngine)
    → lookup (rule_id, camera_id) s.debounce_state ≡ none
    → (check_debounce rule_id camera_id d t (observe rule_id camera_id d earlier s)).1 ≡ true
    → (first : TimePoint) × Streak d t earlier first × (d ≤ℤ seconds_between first t)
unfolding check_debounce
check_debounce-Streak rule_id camera_id d t earlier s fresh passed =
    (Tells-debounce rule_id camera_id d t earlier _
        (Tells-observe rule_id camera_id d earlier s fresh)).1
      passed

-- ===== src/PpeCompliance/Slots.antt =====
-- What one tick does to its slot in the ring of ppe_compliance_aggregator.cpp, and to the sums.
use vms_ai.Prelude.{
  ℕ, zero, suc, ◌+◌, ◌-◌, ◌%◌, ◌^◌, ◌≤◌, ◌<◌, ◌≡◌, refl, ◌⊎◌, inl, inr, ℤ, pos, pos_part, -ℤ_parts,
  int_beq, int_beq_iff, Bool, true, false, List, [], ◌∷◌, ltb, length, get_or, set, ◌==◌,
  if◌then◌else◌, Bool-cases, arith,
}
use vms_ai.PpeCompliance.{MinuteSlot, unused, add_ticks, current, record_slot, in_window, sum_slots}

-- A tick of one camera: its minute and its two counts.
pub record Tick : Type 0 where
  pub minute : ℕ
  pub compliant : ℤ
  pub violating : ℤ

-- What a slot adds to a sum.
abbrev pub contribution : (MinuteSlot → ℕ) → ℕ → ℕ → MinuteSlot → ℕ
contribution pick window now slot = if in_window window now slot then pick slot else 0

-- Putting a slot in another's place changes the sum by the two contributions, modulo 2^64.
pub sum_slots-set :
    (pick : MinuteSlot → ℕ) (window now : ℕ) (ring : List MinuteSlot) (i : ℕ) (v : MinuteSlot)
    → i < length ring
    → (sum_slots pick window now (set ring i v)
          + contribution pick window now (get_or ring i unused))
        % 2 ^ 64
      ≡ (sum_slots pick window now ring + contribution pick window now v) % 2 ^ 64
unfolding sum_slots
sum_slots-set pick window now [] i v h = elim h [ ]
sum_slots-set pick window now (s ∷ ring) zero v h = ground arith
sum_slots-set pick window now (s ∷ ring) (suc i) v h =
    ground (arith, sum_slots-set pick window now ring i v (omega arith))

pub get_or-set :
    (ring : List MinuteSlot) (i j : ℕ) (v : MinuteSlot)
    → i < length ring
    → get_or (set ring i v) j unused ≡ (if i == j then v else get_or ring j unused)
get_or-set [] i j v h = elim h [ ]
get_or-set (s ∷ ring) zero zero v h = refl
get_or-set (s ∷ ring) zero (suc j) v h = ground arith
get_or-set (s ∷ ring) (suc i) zero v h = ground arith
get_or-set (s ∷ ring) (suc i) (suc j) v h = ground (arith, get_or-set ring i j v (omega arith))

-- `true` is the compliant count, `false` the violating one.
abbrev pub pick_of : Bool → MinuteSlot → ℕ
pick_of true slot = slot.compliant_ticks
pick_of false slot = slot.violating_ticks

abbrev pub count_of : Bool → Tick → ℤ
count_of true tick = tick.compliant
count_of false tick = tick.violating

-- A slot of the ring at `i`: unused, or of a minute up to `hi` that belongs there.
unfoldable pub Placed : ℕ → ℕ → MinuteSlot → Type 0
Placed hi i slot =
    (slot ≡ unused) ⊎ ((m : ℕ) × (slot.epoch_minute ≡ pos m) × (m % 60 ≡ i) × (m ≤ hi))

pub record IsRing (hi : ℕ) (ring : List MinuteSlot) : Type 0 where
  pub sized : length ring ≡ 60
  pub placed : (i : ℕ) → i < 60 → Placed hi i (get_or ring i unused)

-- The minute is one of the `window` ones that end with `now`.
abbrev pub recent : ℕ → ℕ → ℕ → Bool
recent window now minute = ltb now (minute + window)

pub in_window-recent :
    (window now m : ℕ) (slot : MinuteSlot)
    → 0 < window
    → slot.epoch_minute ≡ pos m
    → m ≤ now
    → in_window window now slot ≡ recent window now m
unfolding in_window
in_window-recent window now m slot w e h =
    rw e (ground (arith, -ℤ_parts (pos now) (pos (window - 1))))

pub epoch_minute-record_slot :
    (t : ℕ) (c v : ℤ) (slot : MinuteSlot) → (record_slot t c v slot).epoch_minute ≡ pos t
unfolding record_slot current
epoch_minute-record_slot t c v slot = ground (arith, int_beq_iff slot.epoch_minute (pos t))

pub pick_of-record_slot :
    (kind : Bool) (tick : Tick) (slot : MinuteSlot)
    → pick_of kind (record_slot tick.minute tick.compliant tick.violating slot) % 2 ^ 64
      ≡ (pick_of kind (current tick.minute slot) + pos_part (count_of kind tick)) % 2 ^ 64
unfolding record_slot add_ticks
pick_of-record_slot true tick slot = ground arith
pick_of-record_slot false tick slot = ground arith

-- A slot that starts over for the minute `t` added nothing.
pub contribution-current :
    (kind : Bool) (window now hi t : ℕ) (slot : MinuteSlot)
    → 0 < window
    → window ≤ 60
    → hi ≤ t
    → t ≤ now
    → Placed hi (t % 60) slot
    → contribution (pick_of kind) window now slot
      ≡ (if recent window now t then pick_of kind (current t slot) else 0)
unfolding Placed current
contribution-current true window now hi t slot w w' h k (inl e) = rw (e, current) (ground arith)
contribution-current false window now hi t slot w w' h k (inl e) = rw (e, current) (ground arith)
contribution-current kind window now hi t slot w w' h k (inr (m, e, r, b)) =
    elim (Bool-cases (int_beq slot.epoch_minute (pos t))) [
      | inl same ↦
          rw (same, current)
            (rw
              (in_window-recent window now t slot w ((int_beq_iff slot.epoch_minute (pos t)).0 same)
                k)
              refl)
      | inr stale ↦
          rw (stale, current)
            (rw (in_window-recent window now m slot w e (omega arith), past stale, no_pick kind)
              (ground arith))
    ]
  where
    past : int_beq slot.epoch_minute (pos t) ≡ false → recent window now m ≡ false
    past stale = ground (arith, int_beq_iff slot.epoch_minute (pos t))

    no_pick :
        (b : Bool)
        → pick_of b (record { epoch_minute = pos t; compliant_ticks = 0; violating_ticks = 0 }) ≡ 0
    no_pick true = refl
    no_pick false = refl

-- What a tick adds to its slot's contribution, modulo 2^64.
pub record_slot-contribution :
    (kind : Bool) (window now hi : ℕ) (tick : Tick) (slot : MinuteSlot)
    → 0 < window
    → window ≤ 60
    → hi ≤ tick.minute
    → tick.minute ≤ now
    → Placed hi (tick.minute % 60) slot
    → contribution
          (pick_of kind)
          window
          now
          (record_slot tick.minute tick.compliant tick.violating slot)
        % 2 ^ 64
      ≡ (contribution (pick_of kind) window now slot
          + (if recent window now tick.minute then pos_part (count_of kind tick) else 0))
        % 2 ^ 64
record_slot-contribution kind window now hi tick slot w w' h k p = ground (
  arith,
  in_window-recent window now tick.minute
      (record_slot tick.minute tick.compliant tick.violating slot) w
      (epoch_minute-record_slot tick.minute tick.compliant tick.violating slot) k,
  pick_of-record_slot kind tick slot,
  contribution-current kind window now hi tick.minute slot w w' h k p,
)

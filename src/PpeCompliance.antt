-- ===== src/PpeCompliance.antt =====
-- cpp-backend/include/core/ppe_compliance_aggregator.h and
-- cpp-backend/src/core/ppe_compliance_aggregator.cpp: the ring of 60 minutes that each camera's
-- compliant and violating detections are counted in. Times are milliseconds since the epoch, from it
-- on. The rates of a snapshot, which are quotients of its counts, and its JSON are left out.
pub mod Slots
pub mod Tally
pub mod Cameras
mod Tests
use vms_ai.Prelude.{
  ℕ, ◌+◌, ◌-◌, ◌/◌, ◌%◌, ◌^◌, ℤ, pos, negsuc, pos_part, ◌-ℤ◌, ltb_ℤ, leb_ℤ, int_beq, Bool, true,
  false, not, ◌&&◌, ◌||◌, Option, none, some, List, [], ◌∷◌, ltb, length, get_or, set, replicate,
  if◌then◌else◌, Map, lookup, insert, int_eq,
}

pub record MinuteSlot : Type 0 where
  pub epoch_minute : ℤ
  pub compliant_ticks : ℕ  -- uint64_t
  pub violating_ticks : ℕ  -- uint64_t

abbrev pub unused : MinuteSlot
unused = record { epoch_minute = negsuc 0; compliant_ticks = 0; violating_ticks = 0 }

abbrev pub slot_count : ℕ
slot_count = 60

abbrev pub new_ring : List MinuteSlot
new_ring = replicate 60 unused

pub record PpeComplianceAggregator : Type 0 where
  pub rings : Map ℤ (List MinuteSlot)
  pub last_tick_ms : ℕ
  pub last_violation_ms : ℕ

abbrev pub ring_or_new : Option (List MinuteSlot) → List MinuteSlot
ring_or_new none = new_ring
ring_or_new (some ring) = ring

-- if (count > 0) ticks += count;
unfoldable pub add_ticks : ℤ → ℕ → ℕ
add_ticks count ticks = if ltb_ℤ (pos 0) count then (ticks + pos_part count) % 2 ^ 64 else ticks

-- A slot of another minute starts over.
unfoldable pub current : ℕ → MinuteSlot → MinuteSlot
current minute slot =
    if int_beq slot.epoch_minute (pos minute)
    then slot
    else record { epoch_minute = pos minute; compliant_ticks = 0; violating_ticks = 0 }

unfoldable pub record_slot : ℕ → ℤ → ℤ → MinuteSlot → MinuteSlot
record_slot minute compliant violating slot =
    let s = current minute slot in
    (record s {
      compliant_ticks = add_ticks compliant s.compliant_ticks;
      violating_ticks = add_ticks violating s.violating_ticks;
    })

unfoldable pub record_ring : ℕ → ℤ → ℤ → List MinuteSlot → List MinuteSlot
record_ring minute compliant violating ring =
    set ring (minute % 60)
      (record_slot minute compliant violating (get_or ring (minute % 60) unused))

unfoldable pub record_tick : ℤ → ℕ → ℤ → ℤ → PpeComplianceAggregator → PpeComplianceAggregator
record_tick camera_id ts_ms compliant violating s =
    if leb_ℤ compliant (pos 0) && leb_ℤ violating (pos 0) then s else (record s {
      rings =
          insert camera_id
            (record_ring (ts_ms / 60000) compliant violating
              (ring_or_new (lookup camera_id s.rings)))
            s.rings;
      last_tick_ms = ts_ms;
      last_violation_ms = if ltb_ℤ (pos 0) violating then ts_ms else s.last_violation_ms;
    })

unfoldable pub camera_count : PpeComplianceAggregator → ℕ
camera_count s = length s.rings

-- window_minutes, clamped to what the ring holds
unfoldable pub clamp_window : ℤ → ℕ
clamp_window window =
    if ltb_ℤ window (pos 1) then 1 else if ltb_ℤ (pos 60) window then 60 else pos_part window

-- The slot is in the window of the minutes that ends with `now_minute`.
unfoldable pub in_window : ℕ → ℕ → MinuteSlot → Bool
in_window window now_minute slot =
    not (ltb_ℤ slot.epoch_minute (pos now_minute -ℤ pos (window - 1)))
    && not (ltb_ℤ (pos now_minute) slot.epoch_minute)

-- The sum of one of the two counts over the ring.
unfoldable pub sum_slots : (MinuteSlot → ℕ) → ℕ → ℕ → List MinuteSlot → ℕ
sum_slots pick window now_minute [] = 0
sum_slots pick window now_minute (slot ∷ ring) =
    let rest = sum_slots pick window now_minute ring in
    if in_window window now_minute slot then (rest + pick slot) % 2 ^ 64 else rest

-- The two counts that a snapshot gives for a camera's ring.
unfoldable pub snapshot_ring : ℤ → ℕ → List MinuteSlot → ℕ × ℕ
snapshot_ring window_minutes now_ms ring =
    let count = λ (pick : MinuteSlot → ℕ).
      sum_slots pick (clamp_window window_minutes) (now_ms / 60000) ring in
    (count (λ slot. slot.compliant_ticks), count (λ slot. slot.violating_ticks))

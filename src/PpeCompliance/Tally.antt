-- ===== src/PpeCompliance/Tally.antt =====
-- The ring of ppe_compliance_aggregator.cpp against a plain count of the ticks.
use vms_ai.Prelude.{
  ℕ, zero, suc, ◌+◌, ◌/◌, ◌%◌, ◌^◌, ◌≤◌, ◌<◌, ◌≡◌, refl, inl, inr, ℤ, pos, pos_part, leb_ℤ, Bool,
  true, false, ◌&&◌, List, [], ◌∷◌, length, length-set, get_or, set, replicate, ◌==◌, if◌then◌else◌,
  Bool-cases, arith,
}
use vms_ai.PpeCompliance.{
  MinuteSlot, unused, new_ring, record_slot, record_ring, clamp_window, sum_slots, snapshot_ring,
}
use vms_ai.PpeCompliance.Slots.{
  Tick, sum_slots-set, get_or-set, pick_of, count_of, Placed, IsRing, recent,
  epoch_minute-record_slot, record_slot-contribution,
}

-- The ticks in order, each passed over if it counts nothing.
unfoldable pub record_all : List Tick → List MinuteSlot → List MinuteSlot
record_all [] ring = ring
record_all (t ∷ ts) ring = record_all ts (
    if leb_ℤ t.compliant (pos 0) && leb_ℤ t.violating (pos 0)
    then ring
    else record_ring t.minute t.compliant t.violating ring)

-- The plain count of the recent ticks.
unfoldable pub tally : Bool → ℕ → ℕ → List Tick → ℕ
tally kind window now [] = 0
tally kind window now (t ∷ ts) =
    (if recent window now t.minute then pos_part (count_of kind t) else 0)
    + tally kind window now ts

-- The ticks come in the order of their minutes, from `lo` to `hi`.
abbrev pub InOrder : ℕ → ℕ → List Tick → Type 0
InOrder lo hi [] = lo ≤ hi
InOrder lo hi (t ∷ ts) = (lo ≤ t.minute) × InOrder t.minute hi ts

InOrder-le : (lo hi : ℕ) (ts : List Tick) → InOrder lo hi ts → lo ≤ hi
InOrder-le lo hi [] h = h
InOrder-le lo hi (t ∷ ts) h = omega (arith, InOrder-le t.minute hi ts h.1, h.0)

Placed-mono : (lo hi i : ℕ) (slot : MinuteSlot) → lo ≤ hi → Placed lo i slot → Placed hi i slot
unfolding Placed
Placed-mono lo hi i slot h (inl e) = inl e
Placed-mono lo hi i slot h (inr (m, e, r, b)) = inr (m, e, r, omega arith)

record_slot-Placed :
    (t : Tick) (i : ℕ) (slot : MinuteSlot)
    → t.minute % 60 ≡ i
    → Placed t.minute i (record_slot t.minute t.compliant t.violating slot)
unfolding Placed
record_slot-Placed t i slot e =
    inr (t.minute, epoch_minute-record_slot t.minute t.compliant t.violating slot, e, omega arith)

record_ring-IsRing :
    (hi : ℕ) (t : Tick) (ring : List MinuteSlot)
    → hi ≤ t.minute
    → IsRing hi ring
    → IsRing t.minute (record_ring t.minute t.compliant t.violating ring)
unfolding record_ring
record_ring-IsRing hi t ring h r = record {
  sized = omega (arith, length-set ring (t.minute % 60) v, r.sized);
  placed = placed;
}
  where
    v : MinuteSlot
    v = record_slot t.minute t.compliant t.violating (get_or ring (t.minute % 60) unused)

    inside : t.minute % 60 < length ring
    inside = omega (arith, r.sized)

    placed : (i : ℕ) → i < 60 → Placed t.minute i (get_or (set ring (t.minute % 60) v) i unused)
    placed i k = elim (Bool-cases (t.minute % 60 == i)) [
      | inl here ↦
          rw (get_or-set ring (t.minute % 60) i v inside, here)
            (record_slot-Placed t i (get_or ring (t.minute % 60) unused) (ground arith))
      | inr elsewhere ↦
          rw (get_or-set ring (t.minute % 60) i v inside, elsewhere)
            (Placed-mono hi t.minute i _ h (r.placed i k))
    ]

-- The sum over the ring after a tick.
sum_slots-record_ring :
    (kind : Bool) (window now hi : ℕ) (t : Tick) (ring : List MinuteSlot)
    → 0 < window
    → window ≤ 60
    → hi ≤ t.minute
    → t.minute ≤ now
    → IsRing hi ring
    → sum_slots (pick_of kind) window now (record_ring t.minute t.compliant t.violating ring)
        % 2 ^ 64
      ≡ (sum_slots (pick_of kind) window now ring
          + (if recent window now t.minute then pos_part (count_of kind t) else 0))
        % 2 ^ 64
unfolding record_ring
sum_slots-record_ring kind window now hi t ring w w' h k r = omega (
  arith,
  sum_slots-set (pick_of kind) window now ring (t.minute % 60)
      (record_slot t.minute t.compliant t.violating (get_or ring (t.minute % 60) unused))
      (omega (arith, r.sized)),
  record_slot-contribution kind window now hi t (get_or ring (t.minute % 60) unused) w w' h k
      (r.placed (t.minute % 60) (omega arith)),
)

IsRing-mono : (lo hi : ℕ) (ring : List MinuteSlot) → lo ≤ hi → IsRing lo ring → IsRing hi ring
IsRing-mono lo hi ring h r = record {
  sized = r.sized;
  placed = λ i k. Placed-mono lo hi i _ h (r.placed i k);
}

no_count :
    (kind : Bool) (t : Tick)
    → (leb_ℤ t.compliant (pos 0) && leb_ℤ t.violating (pos 0)) ≡ true
    → pos_part (count_of kind t) ≡ 0
no_count true t h = ground arith
no_count false t h = ground arith

sum_slots-record_all :
    (kind : Bool) (window now lo : ℕ) (ts : List Tick) (ring : List MinuteSlot)
    → 0 < window
    → window ≤ 60
    → InOrder lo now ts
    → IsRing lo ring
    → sum_slots (pick_of kind) window now (record_all ts ring) % 2 ^ 64
      ≡ (sum_slots (pick_of kind) window now ring + tally kind window now ts) % 2 ^ 64
unfolding record_all tally
sum_slots-record_all kind window now lo [] ring w w' o r = omega arith
sum_slots-record_all kind window now lo (t ∷ ts) ring w w' o r =
    elim (Bool-cases (leb_ℤ t.compliant (pos 0) && leb_ℤ t.violating (pos 0))) [
      | inl nothing ↦ rw nothing (
          ground (
            arith,
            sum_slots-record_all kind window now t.minute ts ring w w' o.1
                (IsRing-mono lo t.minute ring o.0 r),
            no_count kind t nothing,
          ))
      | inr counted ↦ rw counted (
          ground (
            arith,
            sum_slots-record_all kind window now t.minute ts
                (record_ring t.minute t.compliant t.violating ring) w w' o.1
                (record_ring-IsRing lo t ring o.0 r),
            sum_slots-record_ring kind window now lo t ring w w' o.0
                (InOrder-le t.minute now ts o.1) r,
          ))
    ]

get_or-new_ring : (n i : ℕ) → get_or (replicate n unused) i unused ≡ unused
get_or-new_ring zero i = refl
get_or-new_ring (suc n) zero = refl
get_or-new_ring (suc n) (suc i) = get_or-new_ring n i

new_ring-IsRing : IsRing 0 new_ring
unfolding Placed
new_ring-IsRing = record { sized = omega arith; placed = λ i k. inl (get_or-new_ring 60 i) }

sum_slots-unused :
    (kind : Bool) (window now n : ℕ) → sum_slots (pick_of kind) window now (replicate n unused) ≡ 0
unfolding sum_slots
sum_slots-unused kind window now zero = refl
sum_slots-unused true window now (suc n) = ground (arith, sum_slots-unused true window now n)
sum_slots-unused false window now (suc n) = ground (arith, sum_slots-unused false window now n)

sum_slots-bound :
    (kind : Bool) (window now : ℕ) (ring : List MinuteSlot)
    → sum_slots (pick_of kind) window now ring < 2 ^ 64
unfolding sum_slots
sum_slots-bound kind window now [] = omega arith
sum_slots-bound kind window now (s ∷ ring) = ground (arith, sum_slots-bound kind window now ring)

clamp_window-bounds : (window : ℤ) → (0 < clamp_window window) × (clamp_window window ≤ 60)
unfolding clamp_window
clamp_window-bounds window = (ground arith, ground arith)

-- For a camera whose ticks came in the order of their minutes, none after the minute of the
-- snapshot, the ring of 60 minutes gives the plain counts: each of the two is, modulo 2^64, the sum
-- over all ticks of the camera's last minutes, as many as the clamped window has. No tick is lost to
-- the reuse of a slot, and none that is older is still counted.
pub snapshot_ring-tally :
    (window_minutes : ℤ) (now_ms : ℕ) (ts : List Tick)
    → InOrder 0 (now_ms / 60000) ts
    → let (compliant, violating) = snapshot_ring window_minutes now_ms (record_all ts new_ring) in
      (compliant ≡ tally true (clamp_window window_minutes) (now_ms / 60000) ts % 2 ^ 64)
      × (violating ≡ tally false (clamp_window window_minutes) (now_ms / 60000) ts % 2 ^ 64)
unfolding snapshot_ring
snapshot_ring-tally window_minutes now_ms ts o = (counts true, counts false)
  where
    w : ℕ
    w = clamp_window window_minutes

    now : ℕ
    now = now_ms / 60000

    counts :
        (kind : Bool)
        → sum_slots (pick_of kind) w now (record_all ts new_ring) ≡ tally kind w now ts % 2 ^ 64
    counts kind = omega (
      arith,
      sum_slots-record_all kind w now 0 ts new_ring (clamp_window-bounds window_minutes).0
          (clamp_window-bounds window_minutes).1 o new_ring-IsRing,
      sum_slots-unused kind w now 60,
      sum_slots-bound kind w now (record_all ts new_ring),
    )

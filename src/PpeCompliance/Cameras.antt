-- ===== src/PpeCompliance/Cameras.antt =====
-- Ticks of several cameras in ppe_compliance_aggregator.cpp.
use vms_ai.Prelude.{
  ℕ, ◌/◌, ◌%◌, ◌^◌, ◌≡◌, refl, ap, ◌∙◌, inl, inr, ℤ, pos, leb_ℤ, int_beq, int_beq_iff, true, false,
  ◌&&◌, List, [], ◌∷◌, Bool-cases, if◌then◌else◌, lookup, lookup-insert, int_eq, arith,
}
use vms_ai.PpeCompliance.{
  MinuteSlot, PpeComplianceAggregator, ring_or_new, record_ring, record_tick, clamp_window,
  snapshot_ring,
}
use vms_ai.PpeCompliance.Slots.{Tick}
use vms_ai.PpeCompliance.Tally.{InOrder, record_all, tally, snapshot_ring-tally}

-- The arguments of recordTick.
pub record Call : Type 0 where
  pub camera_id : ℤ
  pub ts_ms : ℕ
  pub compliant : ℤ
  pub violating : ℤ

unfoldable pub record_ticks : List Call → PpeComplianceAggregator → PpeComplianceAggregator
record_ticks [] s = s
record_ticks (c ∷ cs) s =
    record_ticks cs (record_tick c.camera_id c.ts_ms c.compliant c.violating s)

abbrev pub tick_of : Call → Tick
tick_of c = record { minute = c.ts_ms / 60000; compliant = c.compliant; violating = c.violating }

-- The ticks of one camera.
unfoldable pub ticks_of : ℤ → List Call → List Tick
ticks_of camera [] = []
ticks_of camera (c ∷ cs) =
    let rest = ticks_of camera cs in if int_beq c.camera_id camera then tick_of c ∷ rest else rest

abbrev pub ring_of : ℤ → PpeComplianceAggregator → List MinuteSlot
ring_of camera s = ring_or_new (lookup camera s.rings)

ring_of-record_tick :
    (camera : ℤ) (c : Call) (s : PpeComplianceAggregator)
    → ring_of camera (record_tick c.camera_id c.ts_ms c.compliant c.violating s) ≡ (
        if int_beq c.camera_id camera
        then (if leb_ℤ c.compliant (pos 0) && leb_ℤ c.violating (pos 0)
            then ring_of camera s
            else record_ring (c.ts_ms / 60000) c.compliant c.violating (ring_of camera s))
        else ring_of camera s)
unfolding record_tick
ring_of-record_tick camera c s =
    elim (Bool-cases (leb_ℤ c.compliant (pos 0) && leb_ℤ c.violating (pos 0))) [
      | inl nothing ↦ rw (nothing, record_tick) (ground arith)
      | inr counted ↦
          rw (counted, record_tick)
            (rw
              (lookup-insert c.camera_id camera
                (record_ring (c.ts_ms / 60000) c.compliant c.violating (ring_of c.camera_id s))
                s.rings)
              (elim (Bool-cases (int_beq c.camera_id camera)) [
                | inl same ↦ rw same (
                    ap (λ k. record_ring (c.ts_ms / 60000) c.compliant c.violating (ring_of k s))
                      ((int_beq_iff c.camera_id camera).0 same))
                | inr apart ↦ rw apart refl
              ]))
    ]

ring_of-record_ticks :
    (camera : ℤ) (cs : List Call) (s : PpeComplianceAggregator)
    → ring_of camera (record_ticks cs s) ≡ record_all (ticks_of camera cs) (ring_of camera s)
unfolding record_ticks ticks_of record_all
ring_of-record_ticks camera [] s = refl
ring_of-record_ticks camera (c ∷ cs) s =
    ring_of-record_ticks camera cs s'
    ∙ (ap (record_all (ticks_of camera cs)) (ring_of-record_tick camera c s) ∙ own)
  where
    s' : PpeComplianceAggregator
    s' = record_tick c.camera_id c.ts_ms c.compliant c.violating s

    own :
        record_all (ticks_of camera cs) (
          if int_beq c.camera_id camera
          then (if leb_ℤ c.compliant (pos 0) && leb_ℤ c.violating (pos 0)
              then ring_of camera s
              else record_ring (c.ts_ms / 60000) c.compliant c.violating (ring_of camera s))
          else ring_of camera s)
        ≡ record_all
            (if int_beq c.camera_id camera
              then tick_of c ∷ ticks_of camera cs
              else ticks_of camera cs)
            (ring_of camera s)
    own = elim (Bool-cases (int_beq c.camera_id camera)) [
      | inl same ↦ rw same refl
      | inr apart ↦ rw apart refl
    ]

-- Starting with no ring, and with the camera's ticks in the order of their minutes and none after
-- the minute of the snapshot, each of the two counts that a snapshot gives for a camera is, modulo
-- 2^64, the sum over all the camera's ticks in the last minutes, as many as the clamped window has.
-- No tick is lost to the reuse of a slot of the ring, no older one is still counted, and the ticks
-- of other cameras, in any order between, do not matter.
pub snapshot-tally :
    (window_minutes : ℤ) (now_ms : ℕ) (camera : ℤ) (cs : List Call) (s : PpeComplianceAggregator)
    → s.rings ≡ []
    → InOrder 0 (now_ms / 60000) (ticks_of camera cs)
    → let (compliant, violating) =
        snapshot_ring window_minutes now_ms (ring_of camera (record_ticks cs s)) in
      (compliant
        ≡ tally true (clamp_window window_minutes) (now_ms / 60000) (ticks_of camera cs) % 2 ^ 64)
      × (violating
          ≡ tally false (clamp_window window_minutes) (now_ms / 60000) (ticks_of camera cs)
            % 2 ^ 64)
unfolding lookup
snapshot-tally window_minutes now_ms camera cs s e o =
    rw (ring_of-record_ticks camera cs s, e)
      (snapshot_ring-tally window_minutes now_ms (ticks_of camera cs) o)

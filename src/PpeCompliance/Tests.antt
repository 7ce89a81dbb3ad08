-- ===== src/PpeCompliance/Tests.antt =====
-- A run of ppe_compliance_aggregator.cpp, and its theorem at it.
use vms_ai.Prelude.{ℕ, ◌*◌, ◌/◌, ◌%◌, ◌^◌, ◌≡◌, refl, ℤ, pos, true, false, List, [], ◌∷◌, arith}
use vms_ai.PpeCompliance.{PpeComplianceAggregator, clamp_window, snapshot_ring}
use vms_ai.PpeCompliance.Tally.{InOrder, tally}
use vms_ai.PpeCompliance.Cameras.{Call, record_ticks, ticks_of, ring_of, snapshot-tally}

abbrev fresh : PpeComplianceAggregator
fresh = record { rings = []; last_tick_ms = 0; last_violation_ms = 0 }

abbrev call : ℤ → ℕ → ℤ → ℤ → Call
call camera minute compliant violating = record {
  camera_id = camera;
  ts_ms = minute * 60000;
  compliant = compliant;
  violating = violating;
}

-- The second tick takes over the slot of the first, an hour later.
abbrev calls : List Call
calls =
    call (pos 1) 100 (pos 2) (pos 1)
    ∷ call (pos 2) 130 (pos 9) (pos 9)
    ∷ call (pos 1) 160 (pos 3) (pos 0)
    ∷ []

calls-InOrder : InOrder 0 (9600000 / 60000) (ticks_of (pos 1) calls)
unfolding ticks_of
calls-InOrder = (omega arith, (omega arith, omega arith))

snapshot-tally_example :
    let (compliant, violating) =
      snapshot_ring (pos 60) 9600000 (ring_of (pos 1) (record_ticks calls fresh)) in
    (compliant
      ≡ tally true (clamp_window (pos 60)) (9600000 / 60000) (ticks_of (pos 1) calls) % 2 ^ 64)
    × (violating
        ≡ tally false (clamp_window (pos 60)) (9600000 / 60000) (ticks_of (pos 1) calls) % 2 ^ 64)
snapshot-tally_example = snapshot-tally (pos 60) 9600000 (pos 1) calls fresh refl calls-InOrder

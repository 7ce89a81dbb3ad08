-- ===== src/Attendance/Tests.antt =====
-- Runs of attendance_tracker.cpp, and its theorems at concrete recognitions.
use vms_ai.Prelude.{
  ℕ, ◌≡◌, refl, true, ℤ, pos, ◌-ℤ◌, none, List, [], ◌∷◌, Text, bytes, lookup, insert, int_eq,
  nat_eq, arith,
}
use vms_ai.Attendance.{
  AttendanceTracker, Recognition, read_cooldown_seconds_from_env, new, start, reload_employees,
  reload_camera_roles, is_outside_cooldown_window, kind_for_role, to_uint32, pack_key, role_or,
  resolve_kind, counts, row_of, collect, remember, on_face_recognized,
}
use vms_ai.Attendance.Keys.{IsInt32}
use vms_ai.Attendance.Punches.{punches, punches-IsChain, IsChain, Timely}

abbrev no_digits : Text → ℤ
no_digits _ = pos 0

-- Employee 9 is person 5, and camera 1 is a door for both ways.
abbrev tracker : AttendanceTracker
tracker = start ((pos 5, pos 9) ∷ []) ((pos 1, bytes "both") ∷ []) (new no_digits none)

abbrev at : ℕ → Recognition
at ts = record {
  camera_id = pos 1;
  person_id = pos 5;
  confidence = pos 1;
  ts_seconds = pos ts;
  snapshot_path = [];
}

abbrev seen : List Recognition
seen = at 1000 ∷ at 1030 ∷ at 1060 ∷ at 1200 ∷ []

-- The second is held back by the cooldown of 60 seconds.
three_punches :
    punches (pos 5) (pos 1) seen tracker
    ≡ (pos 1000, bytes "in") ∷ (pos 1060, bytes "out") ∷ (pos 1200, bytes "in") ∷ []
unfolding punches counts row_of resolve_kind start reload_employees reload_camera_roles lookup
    kind_for_role on_face_recognized insert remember collect pack_key to_uint32
    is_outside_cooldown_window ◌-ℤ◌ read_cooldown_seconds_from_env
three_punches = refl

-- Two calls that overlap: both pass the test before either writes, with punches of one kind.
both_pass :
    (counts (at 1000) tracker ≡ true)
    × (counts (at 1001) tracker ≡ true)
    × ((row_of (at 1001) tracker).kind ≡ (row_of (at 1000) tracker).kind)
unfolding counts row_of resolve_kind start reload_employees reload_camera_roles lookup kind_for_role
    insert pack_key to_uint32
both_pass = (refl, refl, refl)

ids : IsInt32 (pos 5) × IsInt32 (pos 1)
ids = ((omega arith, omega arith), (omega arith, omega arith))

seen-Timely : Timely (pos 0) seen
seen-Timely = (omega arith, ids, (omega arith, ids, (omega arith, ids, (omega arith, ids, tt))))

punches-IsChain_example :
    IsChain tracker.cooldown_seconds
      (role_or [] (lookup (pos 1) tracker.camera_role))
      (punches (pos 5) (pos 1) seen tracker)
unfolding start reload_employees reload_camera_roles
punches-IsChain_example =
    punches-IsChain no_digits none (pos 5) (pos 1) seen (pos 0) tracker ids.0 ids.1 refl tt
      seen-Timely

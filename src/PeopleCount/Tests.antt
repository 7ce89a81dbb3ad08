-- ===== src/PeopleCount/Tests.antt =====
-- Runs of people_count_tracker.cpp, and its theorem at concrete frames. The floats of the tests
-- multiply as integers.
use vms_ai.Prelude.{
  FloatOps, ℕ, ◌/◌, ◌≡◌, refl, ℤ, pos, negsuc, ◌+ℤ◌, ◌-ℤ◌, ◌*ℤ◌, pos_part, true, false, Option,
  none, some, List, [], ◌∷◌, Text, bytes, lookup, insert, int_eq, arith,
}
use vms_ai.Tracker.{TrackState}
use vms_ai.PeopleCount.{
  CountingLine, CrossKey, cross_key_eq, read_cooldown_ms_from_env, new, group_lines, reload_from_db,
  ensure_loaded, collect_fires, held_back, fire, opposite, crossing_of, report, signed_side,
  segments_intersect, direction, visit_direction, visit_lines, is_passed_over, visit_tracks,
  check_crossings,
}
use vms_ai.PeopleCount.Cooldown.{Spaced}
use vms_ai.PeopleCount.History.{Frame, times_of, times_of-new-Spaced}

abbrev float : FloatOps
float = record {
  add = ◌+ℤ◌;
  sub = ◌-ℤ◌;
  mul = ◌*ℤ◌;
  div = λ a b. pos (pos_part a / pos_part b);
  sqrt = λ a. a;
  of_nat = pos;
}

-- A line from the top to the bottom at x = 5.
abbrev line : CountingLine
line = record {
  id = pos 7;
  camera_id = pos 1;
  name = bytes "door";
  ax = pos 5;
  ay = pos 0;
  bx = pos 5;
  by = pos 10;
  dir_a_label = bytes "in";
  dir_b_label = bytes "out";
  object_classes = [];
  enabled = true;
}

abbrev moved : ℕ → ℕ → TrackState
moved from to = record {
  virtual_track_id = pos 3;
  centroid_curr = record { x = pos to; y = pos 5 };
  centroid_prev = record { x = pos from; y = pos 5 };
  bbox_curr = record { x = pos 0; y = pos 0; width = pos 1; height = pos 1 };
  last_zone_id = negsuc 0;
  curr_zone_id = negsuc 0;
  person_id = negsuc 0;
  worker_track_id = negsuc 0;
  object_class = bytes "person";
  first_seen_ms = pos 0;
  last_seen_ms = pos 0;
  is_new = false;
}

abbrev seen : ℕ → ℕ → ℕ → Frame
seen from to ts = record {
  rows = some (line ∷ []);
  camera_id = pos 1;
  tracks = moved from to ∷ [];
  frame_w = pos 1;
  frame_h = pos 1;
  ts_ms = pos ts;
}

-- To and fro, within the cooldown and behind it, and once along the line.
abbrev frames : List Frame
frames = seen 4 6 1000 ∷ seen 6 4 2000 ∷ seen 4 6 4000 ∷ seen 6 8 9000 ∷ []

abbrev no_digits : Text → ℤ
no_digits _ = pos 0

abbrev key : CrossKey
key = record { cam = pos 1; line = pos 7; vid = pos 3 }

two_crossings : times_of float key frames (new no_digits none) ≡ pos 1000 ∷ pos 4000 ∷ []
unfolding times_of check_crossings ensure_loaded reload_from_db group_lines new visit_tracks
    visit_lines visit_direction direction signed_side segments_intersect opposite is_passed_over
    report fire collect_fires held_back crossing_of read_cooldown_ms_from_env insert lookup ◌-ℤ◌
    ◌*ℤ◌
two_crossings = refl

times_of-new-Spaced_example :
    (after : Option ℤ) × Spaced
      (read_cooldown_ms_from_env no_digits none)
      none
      (times_of float key frames (new no_digits none))
      after
times_of-new-Spaced_example =
    times_of-new-Spaced float no_digits none key (pos 0) frames
      (omega arith, (omega arith, (omega arith, (omega arith, tt))))

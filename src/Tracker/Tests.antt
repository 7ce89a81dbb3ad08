-- ===== src/Tracker/Tests.antt =====
-- Runs of tracker_state_manager.cpp, and its theorem at concrete frames. The floats of the tests
-- are cut at 2^-149.
use vms_ai.Prelude.{
  FloatOps, ℕ, ◌*◌, ◌/◌, ◌^◌, ◌≡◌, refl, ℤ, pos, negsuc, pos_part, ◌+ℤ◌, ◌-ℤ◌, some, List, [], ◌∷◌,
  map, All, bytes, lookup, insert, retain, int_eq,
}
use mathlib.Core.Option
use vms_ai.Tracker.{DetectionInput, TrackState, TrackerStateManager, state_of, alive_ids, is_fresh}
use vms_ai.Tracker.Steps.{
  iou, centroid_of, scan_tracks, scan_detections, matched_track, take_match, match_loop, spawned,
  spawn, collect_stale, finish_frame, update_camera, update_frame, reset_camera, reset_found,
}
use vms_ai.Tracker.Match.{AreUnique}
use vms_ai.Tracker.History.{Call, frame, reset, run, new_manager, AreCameras, run_returns}

abbrev one_unit : ℕ
one_unit = 2 ^ 149

abbrev float : FloatOps
float = record {
  add = ◌+ℤ◌;
  sub = ◌-ℤ◌;
  mul = λ a b. pos (pos_part a * pos_part b / one_unit);
  div = λ a b. pos (pos_part a * one_unit / pos_part b);
  sqrt = λ a. a;
  of_nat = λ n. pos (n * one_unit);
}

abbrev seen_at : ℕ → DetectionInput
seen_at left = record {
  class_id = pos 0;
  label = bytes "person";
  confidence = pos one_unit;
  bbox = record {
    x = pos (left * one_unit);
    y = pos 0;
    width = pos (10 * one_unit);
    height = pos (10 * one_unit);
  };
  worker_track_id = negsuc 0;
  person_id = negsuc 0;
}

-- Two people; one moves a little, and a third one comes.
abbrev calls : List Call
calls =
    frame (pos 1) (seen_at 0 ∷ seen_at 40 ∷ []) (pos 1000)
    ∷ frame (pos 1) (seen_at 80 ∷ seen_at 2 ∷ []) (pos 1100)
    ∷ reset (pos 2)
    ∷ []

abbrev ids_of : TrackState → ℤ
ids_of s = s.virtual_track_id

first_frame :
    Option.map
      (λ (s, out). map ids_of out)
      (update_frame float (pos 1) (seen_at 0 ∷ seen_at 40 ∷ []) (pos 1000) new_manager)
    ≡ some (pos 1 ∷ pos 2 ∷ [])
unfolding update_frame update_camera match_loop scan_detections scan_tracks alive_ids finish_frame
    spawn spawned state_of centroid_of collect_stale retain is_fresh insert lookup ◌-ℤ◌ ◌+ℤ◌
first_frame = refl

-- The one who moved keeps the id 1, the new one gets 3.
second_frame :
    Option.map (λ (s, outs). map (map ids_of) outs) (run float calls new_manager)
    ≡ some ((pos 1 ∷ pos 2 ∷ []) ∷ (pos 1 ∷ pos 3 ∷ []) ∷ [])
unfolding run update_frame update_camera match_loop scan_detections scan_tracks take_match
    matched_track iou alive_ids finish_frame spawn spawned state_of centroid_of collect_stale retain
    is_fresh insert lookup ◌-ℤ◌ ◌+ℤ◌ reset_camera reset_found
second_frame = refl

run_returns_example :
    (t : TrackerStateManager) × (outs : List (List TrackState)) × (run float calls new_manager
      ≡ some (t, outs))
    × AreCameras t
    × All AreUnique outs
run_returns_example = run_returns float calls

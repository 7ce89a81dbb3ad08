-- ===== src/Tracker.antt =====
-- cpp-backend/include/core/tracker_state_manager.h and
-- cpp-backend/src/core/tracker_state_manager.cpp: the tracks of each camera, matched with the
-- detections of a frame by the overlap of their boxes. The operations of floats that round are a
-- parameter. An int id is an unbounded integer. The lock of a camera makes each call one step; the
-- reading of a detection from JSON is left out.
pub mod Steps
pub mod Scan
pub mod Match
pub mod Alive
pub mod Frame
pub mod History
mod Tests
use vms_ai.Prelude.{
  Float, FloatOps, zero_float, ℕ, zero, suc, ◌+◌, ◌*◌, ◌^◌, ℤ, pos, negsuc, ◌+ℤ◌, ◌-ℤ◌, ltb_ℤ,
  leb_ℤ, Bool, true, false, not, ◌&&◌, ◌||◌, Option, none, some, List, [], ◌∷◌, ◌++◌, ltb, leb,
  length, get_or, set, replicate, if◌then◌else◌, Map, lookup, insert, retain, int_eq, Text,
}
use mathlib.Core.Option
use vms_ai.Events.{Point2f}

-- cv::Rect2f
pub record Rect2f : Type 0 where
  pub x : Float
  pub y : Float
  pub width : Float
  pub height : Float

pub record DetectionInput : Type 0 where
  pub class_id : ℤ
  pub label : Text
  pub confidence : Float
  pub bbox : Rect2f
  pub worker_track_id : ℤ
  pub person_id : ℤ

pub record TrackState : Type 0 where
  pub virtual_track_id : ℤ
  pub centroid_curr : Point2f
  pub centroid_prev : Point2f
  pub bbox_curr : Rect2f
  pub last_zone_id : ℤ
  pub curr_zone_id : ℤ
  pub person_id : ℤ
  pub worker_track_id : ℤ
  pub object_class : Text
  pub first_seen_ms : ℤ
  pub last_seen_ms : ℤ
  pub is_new : Bool

pub record InternalTrack : Type 0 where
  pub virtual_track_id : ℤ
  pub centroid_curr : Point2f
  pub centroid_prev : Point2f
  pub bbox_curr : Rect2f
  pub last_zone_id : ℤ
  pub curr_zone_id : ℤ
  pub person_id : ℤ
  pub worker_track_id : ℤ
  pub object_class : Text
  pub first_seen_ms : ℤ
  pub last_seen_ms : ℤ

abbrev pub no_box : Rect2f
no_box = record { x = zero_float; y = zero_float; width = zero_float; height = zero_float }

abbrev pub blank_track : InternalTrack
blank_track = record {
  virtual_track_id = pos 0;
  centroid_curr = record { x = zero_float; y = zero_float };
  centroid_prev = record { x = zero_float; y = zero_float };
  bbox_curr = no_box;
  last_zone_id = negsuc 0;
  curr_zone_id = negsuc 0;
  person_id = negsuc 0;
  worker_track_id = negsuc 0;
  object_class = [];
  first_seen_ms = pos 0;
  last_seen_ms = pos 0;
}

abbrev pub blank_detection : DetectionInput
blank_detection = record {
  class_id = negsuc 0;
  label = [];
  confidence = zero_float;
  bbox = no_box;
  worker_track_id = negsuc 0;
  person_id = negsuc 0;
}

pub record CameraState : Type 0 where
  pub tracks : Map ℤ InternalTrack
  pub next_vid : ℤ

abbrev pub new_camera : CameraState
new_camera = record { tracks = []; next_vid = pos 1 }

-- 0.30f
abbrev pub iou_match_threshold : Float
iou_match_threshold = pos (10066330 * 2 ^ 124)

abbrev pub stale_age_ms : ℤ
stale_age_ms = pos 5000

abbrev pub max_tracks_per_cam : ℕ
max_tracks_per_cam = 200

abbrev pub max_float : Float → Float → Float
max_float a b = if ltb_ℤ a b then b else a

abbrev pub min_float : Float → Float → Float
min_float a b = if ltb_ℤ b a then b else a

-- Operator[] on the map; the ids that it is called with are keys.
abbrev pub track_or_blank : Option InternalTrack → InternalTrack
track_or_blank none = blank_track
track_or_blank (some t) = t

abbrev pub positive_or : ℤ → ℤ → ℤ
positive_or id other_id = if ltb_ℤ (pos 0) id then id else other_id

abbrev pub label_or : Text → Text → Text
label_or [] other_label = other_label
label_or (ch ∷ label) other_label = ch ∷ label

-- The report of a track.
unfoldable pub state_of : InternalTrack → Bool → TrackState
state_of t is_new = record {
  virtual_track_id = t.virtual_track_id;
  centroid_curr = t.centroid_curr;
  centroid_prev = t.centroid_prev;
  bbox_curr = t.bbox_curr;
  last_zone_id = t.last_zone_id;
  curr_zone_id = t.curr_zone_id;
  person_id = t.person_id;
  worker_track_id = t.worker_track_id;
  object_class = t.object_class;
  first_seen_ms = t.first_seen_ms;
  last_seen_ms = t.last_seen_ms;
  is_new = is_new;
}

-- The state of the greedy loop.
pub record Matching : Type 0 where
  pub det_used : List Bool
  pub trk_used : List Bool
  pub tracks : Map ℤ InternalTrack
  pub out : List TrackState

-- best_iou, with best_d and best_t where they are not -1
abbrev pub Best : Type 0
Best = Float × Option (ℕ × ℕ)

unfoldable pub alive_ids : ℤ → Map ℤ InternalTrack → List ℤ
alive_ids ts_ms [] = []
alive_ids ts_ms ((vid, t) ∷ tracks) =
    let rest = alive_ids ts_ms tracks in
    if ltb_ℤ stale_age_ms (ts_ms -ℤ t.last_seen_ms) then rest else vid ∷ rest

-- it->second is kept by the collection
unfoldable pub is_fresh : ℤ → InternalTrack → Bool
is_fresh ts_ms t = not (ltb_ℤ stale_age_ms (ts_ms -ℤ t.last_seen_ms))

pub record TrackerStateManager : Type 0 where
  pub by_camera : Map ℤ CameraState

-- ===== src/Tracker/Steps.antt =====
-- The steps of updateFrame of tracker_state_manager.cpp, and the other calls.
use vms_ai.Prelude.{
  Float, FloatOps, zero_float, ℕ, zero, suc, ◌^◌, ℤ, pos, negsuc, ◌+ℤ◌, ltb_ℤ, leb_ℤ, Bool, true,
  false, ◌||◌, Option, none, some, List, [], ◌∷◌, ◌++◌, leb, length, get_or, set, replicate,
  if◌then◌else◌, Map, lookup, insert, retain, int_eq,
}
use mathlib.Core.Option
use vms_ai.Events.{Point2f}
use vms_ai.Tracker.{
  Rect2f, DetectionInput, TrackState, InternalTrack, blank_track, blank_detection, CameraState,
  new_camera, iou_match_threshold, max_tracks_per_cam, max_float, min_float, track_or_blank,
  positive_or, label_or, state_of, Matching, Best, alive_ids, is_fresh, TrackerStateManager,
}

abbrev pub camera_or_new : Option CameraState → CameraState
camera_or_new none = new_camera
camera_or_new (some cam) = cam

-- The collection at the end.
unfoldable pub collect_stale : ℤ → CameraState → CameraState
collect_stale ts_ms cam = record cam { tracks = retain (is_fresh ts_ms) cam.tracks }

module _ (f : FloatOps) where
  unfoldable pub iou : Rect2f → Rect2f → Float
  iou a b =
      let inter_x = max_float a.x b.x in
      let inter_y = max_float a.y b.y in
      let inter_r = min_float (f.add a.x a.width) (f.add b.x b.width) in
      let inter_b = min_float (f.add a.y a.height) (f.add b.y b.height) in
      let iw = f.sub inter_r inter_x in
      let ih = f.sub inter_b inter_y in
      if leb_ℤ iw zero_float || leb_ℤ ih zero_float
      then zero_float
      else (let inter = f.mul iw ih in
          let uni = f.sub (f.add (f.mul a.width a.height) (f.mul b.width b.height)) inter in
          if ltb_ℤ zero_float uni then f.div inter uni else zero_float)

  -- The middle of a box; 0.5f is 2^148.
  unfoldable pub centroid_of : Rect2f → Point2f
  centroid_of b = record {
    x = f.add b.x (f.mul b.width (pos (2 ^ 148)));
    y = f.add b.y (f.mul b.height (pos (2 ^ 148)));
  }

  -- The loop over the tracks from index j on, for detection i.
  unfoldable pub scan_tracks :
      Map ℤ InternalTrack → DetectionInput → ℕ → ℕ → List ℤ → List Bool → Best → Best
  scan_tracks tracks det i j (vid ∷ ids) (true ∷ used) best =
      scan_tracks tracks det i (suc j) ids used best
  scan_tracks tracks det i j (vid ∷ ids) (false ∷ used) best =
      let v = iou det.bbox (track_or_blank (lookup vid tracks)).bbox_curr in
      scan_tracks tracks det i (suc j) ids used (if ltb_ℤ best.0 v then (v, some (i, j)) else best)
  scan_tracks tracks det i j _ _ best = best

  -- The loop over the detections from index i on.
  unfoldable pub scan_detections :
      Matching → List ℤ → ℕ → List DetectionInput → List Bool → Best → Best
  scan_detections m ids i (det ∷ dets) (true ∷ used) best =
      scan_detections m ids (suc i) dets used best
  scan_detections m ids i (det ∷ dets) (false ∷ used) best =
      scan_detections m ids (suc i) dets used (scan_tracks m.tracks det i 0 ids m.trk_used best)
  scan_detections m ids i _ _ best = best

  -- The track after it is matched with a detection.
  unfoldable pub matched_track : ℤ → DetectionInput → InternalTrack → InternalTrack
  matched_track ts_ms det t = record t {
    centroid_prev = t.centroid_curr;
    bbox_curr = det.bbox;
    centroid_curr = centroid_of det.bbox;
    last_seen_ms = ts_ms;
    person_id = positive_or det.person_id t.person_id;
    worker_track_id = positive_or det.worker_track_id t.worker_track_id;
    object_class = label_or det.label t.object_class;
  }

  -- The body of the greedy loop behind the search, for detection i and the track with id vid at j.
  unfoldable pub take_match : ℤ → ℕ → DetectionInput → ℕ → ℤ → Matching → Matching
  take_match ts_ms i det j vid m =
      let t = matched_track ts_ms det (track_or_blank (lookup vid m.tracks)) in
      (record {
        det_used = set m.det_used i true;
        trk_used = set m.trk_used j true;
        tracks = insert vid t m.tracks;
        out = m.out ++ state_of t false ∷ [];
      })

  -- while (true); none is the loop without fuel, which does not happen. The indices found are in
  -- range, so that the defaults are not read.
  unfoldable pub match_loop : ℤ → List DetectionInput → List ℤ → ℕ → Matching → Option Matching
  match_loop ts_ms dets ids zero m = none
  match_loop ts_ms dets ids (suc fuel) m =
      elim (scan_detections m ids 0 dets m.det_used (iou_match_threshold, none)).1 [
        | none ↦ some m
        | some (i, j) ↦
            match_loop ts_ms dets ids fuel
              (take_match ts_ms i (get_or dets i blank_detection) j (get_or ids j (pos 0)) m)
      ]

  unfoldable pub spawned : ℤ → ℤ → DetectionInput → InternalTrack
  spawned ts_ms vid det = record blank_track {
    virtual_track_id = vid;
    bbox_curr = det.bbox;
    centroid_curr = centroid_of det.bbox;
    centroid_prev = centroid_of det.bbox;
    first_seen_ms = ts_ms;
    last_seen_ms = ts_ms;
    person_id = positive_or det.person_id (negsuc 0);
    worker_track_id = det.worker_track_id;
    object_class = det.label;
  }

  -- The unmatched detections become tracks until there are max_tracks_per_cam.
  unfoldable pub spawn :
      ℤ → List DetectionInput → List Bool → CameraState → CameraState × List TrackState
  spawn ts_ms (det ∷ dets) (true ∷ used) cam = spawn ts_ms dets used cam
  spawn ts_ms (det ∷ dets) (false ∷ used) cam = elim (leb max_tracks_per_cam (length cam.tracks)) [
    | true ↦ (cam, [])
    | false ↦
        let t = spawned ts_ms cam.next_vid det in
        let (cam', more) = spawn ts_ms dets used (record {
          tracks = insert cam.next_vid t cam.tracks;
          next_vid = cam.next_vid +ℤ pos 1;
        }) in
        (cam', state_of t true ∷ more)
  ]
  spawn ts_ms _ _ cam = (cam, [])

  unfoldable pub finish_frame :
      ℤ → List DetectionInput → CameraState → Matching → CameraState × List TrackState
  finish_frame ts_ms dets cam m =
      let (cam', more) = spawn ts_ms dets m.det_used (record cam { tracks = m.tracks }) in
      (collect_stale ts_ms cam', m.out ++ more)

  -- updateFrame on the state of the camera.
  unfoldable pub update_camera :
      List DetectionInput → ℤ → CameraState → Option (CameraState × List TrackState)
  update_camera [] ts_ms cam = some (collect_stale ts_ms cam, [])
  update_camera (det ∷ dets) ts_ms cam =
      let ids = alive_ids ts_ms cam.tracks in
      Option.map (finish_frame ts_ms (det ∷ dets) cam) (
        match_loop ts_ms (det ∷ dets) ids (suc (length (det ∷ dets))) (record {
          det_used = replicate (length (det ∷ dets)) false;
          trk_used = replicate (length ids) false;
          tracks = cam.tracks;
          out = [];
        }))

  -- getOrCreate makes the camera. In the model it is stored again after the call.
  unfoldable pub update_frame :
      ℤ
      → List DetectionInput
      → ℤ
      → TrackerStateManager
      → Option (TrackerStateManager × List TrackState)
  update_frame camera_id dets ts_ms s =
      Option.map (λ (cam, out). (record s { by_camera = insert camera_id cam s.by_camera }, out))
        (update_camera dets ts_ms (camera_or_new (lookup camera_id s.by_camera)))

-- Where the camera is known.
unfoldable pub reset_found : ℤ → TrackerStateManager → Option CameraState → TrackerStateManager
reset_found camera_id s none = s
reset_found camera_id s (some cam) = record s {
  by_camera = insert camera_id (record cam { tracks = [] }) s.by_camera;
}

unfoldable pub reset_camera : ℤ → TrackerStateManager → TrackerStateManager
reset_camera camera_id s = reset_found camera_id s (lookup camera_id s.by_camera)

unfoldable pub track_count : ℤ → TrackerStateManager → ℕ
track_count camera_id s = length (camera_or_new (lookup camera_id s.by_camera)).tracks

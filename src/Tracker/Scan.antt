-- ===== src/Tracker/Scan.antt =====
-- What the search of the greedy loop finds.
use vms_ai.Prelude.{
  FloatOps, ℕ, suc, ◌≡◌, refl, ℤ, ltb_ℤ, Bool, true, false, Option, none, some, List, [], ◌∷◌,
  get_elem?, drop, drop_step, if◌then◌else◌, Map, lookup, int_eq,
}
use vms_ai.Tracker.{DetectionInput, InternalTrack, track_or_blank, Matching, Best}
use vms_ai.Tracker.Steps.{iou, scan_tracks, scan_detections}

-- A pair that is found is that of an unmatched detection and an unmatched track.
abbrev pub Found : List Bool → List Bool → List ℤ → Option (ℕ × ℕ) → Type 0
Found det_used trk_used ids none = Unit
Found det_used trk_used ids (some (i, j)) =
    (get_elem? det_used i ≡ some false)
    × (get_elem? trk_used j ≡ some false)
    × (vid : ℤ) × (get_elem? ids j ≡ some vid)

module _ (f : FloatOps) (det_used trk_used : List Bool) (ids : List ℤ) where
  better :
      (b : Bool) (x y : Best)
      → Found det_used trk_used ids x.1
      → Found det_used trk_used ids y.1
      → Found det_used trk_used ids (if b then x else y).1
  better true x y p q = p
  better false x y p q = q

  scan_tracks-Found :
      (tracks : Map ℤ InternalTrack) (det : DetectionInput) (i j : ℕ) (xs : List ℤ)
      (used : List Bool) (best : Best)
      → get_elem? det_used i ≡ some false
      → drop j ids ≡ xs
      → drop j trk_used ≡ used
      → Found det_used trk_used ids best.1
      → Found det_used trk_used ids (scan_tracks f tracks det i j xs used best).1
  unfolding scan_tracks
  scan_tracks-Found tracks det i j [] used best free d e h = h
  scan_tracks-Found tracks det i j (vid ∷ xs) [] best free d e h = h
  scan_tracks-Found tracks det i j (vid ∷ xs) (true ∷ used) best free d e h =
      scan_tracks-Found tracks det i (suc j) xs used best free (drop_step ids j vid xs d).1
        (drop_step trk_used j true used e).1 h
  scan_tracks-Found tracks det i j (vid ∷ xs) (false ∷ used) best free d e h =
      let (at_j, ids_next) = drop_step ids j vid xs d in
      let (free_j, used_next) = drop_step trk_used j false used e in
      let v = iou f det.bbox (track_or_blank (lookup vid tracks)).bbox_curr in
      scan_tracks-Found tracks det i (suc j) xs used
        (if ltb_ℤ best.0 v then (v, some (i, j)) else best) free ids_next used_next
        (better (ltb_ℤ best.0 v) (v, some (i, j)) best (free, free_j, vid, at_j) h)

pub scan_detections-Found :
    (f : FloatOps) (m : Matching) (ids : List ℤ) (i : ℕ) (dets : List DetectionInput)
    (used : List Bool) (best : Best)
    → drop i m.det_used ≡ used
    → Found m.det_used m.trk_used ids best.1
    → Found m.det_used m.trk_used ids (scan_detections f m ids i dets used best).1
unfolding scan_detections
scan_detections-Found f m ids i [] used best e h = h
scan_detections-Found f m ids i (det ∷ dets) [] best e h = h
scan_detections-Found f m ids i (det ∷ dets) (true ∷ used) best e h =
    scan_detections-Found f m ids (suc i) dets used best (drop_step m.det_used i true used e).1 h
scan_detections-Found f m ids i (det ∷ dets) (false ∷ used) best e h =
    let (free, next) = drop_step m.det_used i false used e in
    scan_detections-Found f m ids (suc i) dets used
      (scan_tracks f m.tracks det i 0 ids m.trk_used best) next
      (scan_tracks-Found f m.det_used m.trk_used ids m.tracks det i 0 ids m.trk_used best free refl
        refl h)

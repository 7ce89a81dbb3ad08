-- ===== src/Tracker/History.antt =====
-- A history of frames and resets of tracker_state_manager.cpp.
use mathlib.Core.Option
use vms_ai.Prelude.{
  FloatOps, ◌≡◌, refl, ap, subst, ℤ, int_beq, int_eq, Bool-cases, inl, inr, Option, none, some,
  List, [], ◌∷◌, All, lookup, insert, lookup-insert, arith,
}
use vms_ai.Tracker.{DetectionInput, TrackState, CameraState, new_camera, TrackerStateManager}
use vms_ai.Tracker.Steps.{camera_or_new, update_frame, reset_found, reset_camera}
use vms_ai.Tracker.Match.{AreUnique}
use vms_ai.Tracker.Alive.{IsCamera}
use vms_ai.Tracker.Frame.{update_camera-IsCamera}

pub data Call : Type 0 where
  frame : ℤ → List DetectionInput → ℤ → Call
  reset : ℤ → Call

-- The state and the reports of the frames, after the calls.
unfoldable pub run :
    FloatOps
    → List Call
    → TrackerStateManager
    → Option (TrackerStateManager × List (List TrackState))
run f [] s = some (s, [])
run f (frame camera_id dets ts_ms ∷ calls) s = elim (update_frame f camera_id dets ts_ms s) [
  | none ↦ none
  | some (s', out) ↦ Option.map (λ (last, outs). (last, out ∷ outs)) (run f calls s')
]
run f (reset camera_id ∷ calls) s = run f calls (reset_camera camera_id s)

abbrev pub new_manager : TrackerStateManager
new_manager = record { by_camera = [] }

-- Every camera, known or not yet.
abbrev pub AreCameras : TrackerStateManager → Type 0
AreCameras s = (c : ℤ) → IsCamera (camera_or_new (lookup c s.by_camera))

new_camera-IsCamera : IsCamera new_camera
unfolding lookup
new_camera-IsCamera = record {
  keys = tt;
  named = λ k t e. cc;
  below = λ k t e. cc;
  count = omega arith;
}

put_camera-AreCameras :
    (c : ℤ) (cam : CameraState) (s : TrackerStateManager)
    → IsCamera cam
    → AreCameras s
    → AreCameras (record s { by_camera = insert c cam s.by_camera })
put_camera-AreCameras c cam s h all = λ d. elim (Bool-cases (int_beq c d)) [
  | inl b ↦ rw (lookup-insert c d cam s.by_camera, b) h
  | inr b ↦ rw (lookup-insert c d cam s.by_camera, b) (all d)
]

reset-IsCamera : (cam : CameraState) → IsCamera cam → IsCamera (record cam { tracks = [] })
unfolding lookup
reset-IsCamera cam h = record {
  keys = tt;
  named = λ k t e. cc;
  below = λ k t e. cc;
  count = omega arith;
}

reset_found-AreCameras :
    (c : ℤ) (s : TrackerStateManager) (found : Option CameraState)
    → lookup c s.by_camera ≡ found
    → AreCameras s
    → AreCameras (reset_found c s found)
unfolding reset_found
reset_found-AreCameras c s none e h = h
reset_found-AreCameras c s (some cam) e h =
    put_camera-AreCameras c (record cam { tracks = [] }) s
      (reset-IsCamera cam (subst (λ o. IsCamera (camera_or_new o)) e (h c))) h

module _ (f : FloatOps) where
  run-frame :
      (c : ℤ) (dets : List DetectionInput) (ts : ℤ) (calls : List Call)
      (s s' t : TrackerStateManager) (out : List TrackState) (outs : List (List TrackState))
      → update_frame f c dets ts s ≡ some (s', out)
      → run f calls s' ≡ some (t, outs)
      → run f (frame c dets ts ∷ calls) s ≡ some (t, out ∷ outs)
  unfolding run
  run-frame c dets ts calls s s' t out outs e h = rw (e, run) (rw (h) refl)

  run-AreCameras :
      (calls : List Call) (s : TrackerStateManager)
      → AreCameras s
      → (t : TrackerStateManager) × (outs : List (List TrackState)) × (run f calls s
          ≡ some (t, outs))
        × AreCameras t
        × All AreUnique outs
  unfolding run update_frame reset_camera
  run-AreCameras [] s h = (s, [], refl, h, tt)
  run-AreCameras (frame c dets ts ∷ calls) s h =
      let cam = camera_or_new (lookup c s.by_camera) in
      let (cam', out, ends, good, unique) = update_camera-IsCamera f ts dets cam (h c) in
      let s' : TrackerStateManager = record s { by_camera = insert c cam' s.by_camera } in
      let (t, outs, done, cameras, all) =
        run-AreCameras calls s' (put_camera-AreCameras c cam' s good h) in
      (
        t,
        out ∷ outs,
        run-frame c dets ts calls s s' t out outs
            (ap (Option.map (λ (c', o). (record s { by_camera = insert c c' s.by_camera }, o)))
              ends)
            done,
        cameras,
        (unique, all),
      )
  run-AreCameras (reset c ∷ calls) s h =
      run-AreCameras calls (reset_camera c s)
        (reset_found-AreCameras c s (lookup c s.by_camera) refl h)

-- Whatever frames and resets come: every updateFrame returns, its greedy loop included; the ids of
-- one report are all different; and each camera then has at most 200 tracks, each under its own id,
-- all of them below next_vid, so that the next id is new.
pub run_returns :
    (f : FloatOps) (calls : List Call)
    → (t : TrackerStateManager) × (outs : List (List TrackState)) × (run f calls new_manager
        ≡ some (t, outs))
      × AreCameras t
      × All AreUnique outs
unfolding lookup
run_returns f calls = run-AreCameras f calls new_manager (λ c. new_camera-IsCamera)

-- ===== src/Tracker/Frame.antt =====
-- The state of a camera over one frame.
use mathlib.Core.Option
use vms_ai.Prelude.{
  FloatOps, ℕ, zero, suc, ◌≡◌, ◌≢◌, refl, sym, ap, subst, ℤ, pos, ◌≤ℤ◌, ◌+ℤ◌, int_laws, int_eq,
  Bool, true, false, leb, Bool-cases, inl, inr, some, List, [], ◌∷◌, length, replicate, All,
  All_weaken, insert, arith,
}
use vms_ai.Tracker.{
  DetectionInput, TrackState, CameraState, max_tracks_per_cam, state_of, Matching, alive_ids,
}
use vms_ai.Tracker.Steps.{spawned, spawn, collect_stale, finish_frame, update_camera}
use vms_ai.Tracker.Match.{
  unset, AreUnique, append-AreUnique, IsMatching, Reported, match_loop_returns,
}
use vms_ai.Tracker.Alive.{
  IsCamera, Between, alive_ids-Known, alive_ids-NoTwice, collect_stale-IsCamera,
  spawn_step-IsCamera,
}

module _ (f : FloatOps) (ts : ℤ) where
  -- The new tracks have ids that no track had before.
  record IsSpawn (cam : CameraState) (r : CameraState × List TrackState) : Type 0 where
    camera : IsCamera r.0
    fresh : All (Between cam.next_vid r.0.next_vid) r.1
    unique : AreUnique r.1
    grows : cam.next_vid ≤ℤ r.0.next_vid

  -- The camera after the first spawn.
  abbrev grown_by : DetectionInput → CameraState → CameraState
  grown_by det cam = record {
    tracks = insert cam.next_vid (spawned f ts cam.next_vid det) cam.tracks;
    next_vid = cam.next_vid +ℤ pos 1;
  }

  spawn_full :
      (det : DetectionInput) (dets : List DetectionInput) (used : List Bool) (cam : CameraState)
      → leb max_tracks_per_cam (length cam.tracks) ≡ true
      → spawn f ts (det ∷ dets) (false ∷ used) cam ≡ (cam, [])
  unfolding spawn
  spawn_full det dets used cam full = rw (full, spawn) refl

  spawn_room :
      (det : DetectionInput) (dets : List DetectionInput) (used : List Bool) (cam : CameraState)
      → leb max_tracks_per_cam (length cam.tracks) ≡ false
      → spawn f ts (det ∷ dets) (false ∷ used) cam ≡ (
        (spawn f ts dets used (grown_by det cam)).0,
        state_of (spawned f ts cam.next_vid det) true ∷ (spawn f ts dets used (grown_by det cam)).1,
      )
  unfolding spawn
  spawn_room det dets used cam room = rw (room, spawn) refl

  spawn-IsSpawn :
      (dets : List DetectionInput) (used : List Bool) (cam : CameraState)
      → IsCamera cam
      → IsSpawn cam (spawn f ts dets used cam)
  unfolding spawn spawned state_of
  spawn-IsSpawn [] used cam h = record { camera = h; fresh = tt; unique = tt; grows = omega arith }
  spawn-IsSpawn (det ∷ dets) [] cam h = record {
    camera = h;
    fresh = tt;
    unique = tt;
    grows = omega arith;
  }
  spawn-IsSpawn (det ∷ dets) (true ∷ used) cam h = spawn-IsSpawn dets used cam h
  spawn-IsSpawn (det ∷ dets) (false ∷ used) cam h =
      elim (Bool-cases (leb max_tracks_per_cam (length cam.tracks))) [
        | inl full ↦
            subst (IsSpawn cam) (sym (spawn_full det dets used cam full))
              (record { camera = h; fresh = tt; unique = tt; grows = omega arith })
        | inr room ↦
            let t = spawned f ts cam.next_vid det in
            let rest =
              spawn-IsSpawn dets used (grown_by det cam) (spawn_step-IsCamera cam t refl room h) in
            let last = (spawn f ts dets used (grown_by det cam)).0.next_vid in
            let more = (spawn f ts dets used (grown_by det cam)).1 in
            let later = rest.grows in
            subst (IsSpawn cam) (sym (spawn_room det dets used cam room)) (record {
              camera = rest.camera;
              fresh = (
                (omega arith, later),
                All_weaken (Between (cam.next_vid +ℤ pos 1) last) (Between cam.next_vid last) more
                    (λ s (a, b). (omega int_laws, b)) rest.fresh,
              );
              unique = (
                All_weaken (Between (cam.next_vid +ℤ pos 1) last)
                    (λ (s : TrackState). cam.next_vid ≢ s.virtual_track_id) more
                    (λ s (a, b) e.
                      let bad = subst (λ v. cam.next_vid +ℤ pos 1 ≤ℤ v) (sym e) a in
                      absurd (omega int_laws))
                    rest.fresh,
                rest.unique,
              );
              grows = omega int_laws;
            })
      ]

  -- The loop begins with no report.
  abbrev start_of : List DetectionInput → CameraState → Matching
  start_of dets cam = record {
    det_used = replicate (length dets) false;
    trk_used = replicate (length (alive_ids ts cam.tracks)) false;
    tracks = cam.tracks;
    out = [];
  }

  abbrev Matched : CameraState → Matching → Type 0
  Matched cam = IsMatching (alive_ids ts cam.tracks) (length cam.tracks) cam.next_vid

  start-Matched :
      (dets : List DetectionInput) (cam : CameraState)
      → IsCamera cam
      → Matched cam (start_of dets cam)
  start-Matched dets cam h = record {
    keys = h.keys;
    count = refl;
    named = h.named;
    below = h.below;
    known = alive_ids-Known ts cam.tracks;
    reports = tt;
    unique = tt;
  }

  finish_frame-IsCamera :
      (dets : List DetectionInput) (cam : CameraState) (m : Matching)
      → IsCamera cam
      → Matched cam m
      → IsCamera (finish_frame f ts dets cam m).0 × AreUnique (finish_frame f ts dets cam m).1
  unfolding finish_frame
  finish_frame-IsCamera dets cam m h good =
      let before : CameraState = record cam { tracks = m.tracks } in
      let spawned_ones = spawn-IsSpawn dets m.det_used before (record {
        keys = good.keys;
        named = good.named;
        below = good.below;
        count = omega (arith, good.count, h.count);
      }) in
      let last = (spawn f ts dets m.det_used before).0 in
      let more = (spawn f ts dets m.det_used before).1 in
      (
        collect_stale-IsCamera ts last spawned_ones.camera,
        append-AreUnique m.out more good.unique spawned_ones.unique (
            All_weaken (Reported (alive_ids ts cam.tracks) m.trk_used)
              (λ s. All (λ (r : TrackState). s.virtual_track_id ≢ r.virtual_track_id) more) m.out
              (λ s (j, _, at_j).
                let (t, found) = good.known j s.virtual_track_id at_j in
                let old = good.below s.virtual_track_id t found in
                All_weaken (Between cam.next_vid last.next_vid)
                  (λ (r : TrackState). s.virtual_track_id ≢ r.virtual_track_id) more
                  (λ r (a, b) e.
                    let bad = subst (λ v. cam.next_vid ≤ℤ v) (sym e) a in absurd (omega int_laws))
                  spawned_ones.fresh)
              good.reports),
      )

  unset_all : (n : ℕ) → unset (replicate n false) ≡ n
  unset_all zero = refl
  unset_all (suc n) = ap suc (unset_all n)

  pub update_camera-IsCamera :
      (dets : List DetectionInput) (cam : CameraState)
      → IsCamera cam
      → (cam' : CameraState) × (out : List TrackState) × (update_camera f dets ts cam
          ≡ some (cam', out))
        × IsCamera cam'
        × AreUnique out
  unfolding update_camera
  update_camera-IsCamera [] cam h =
      (collect_stale ts cam, [], refl, collect_stale-IsCamera ts cam h, tt)
  update_camera-IsCamera (det ∷ dets) cam h =
      let all_dets = det ∷ dets in
      let (m, ends, good) =
        match_loop_returns f ts (alive_ids ts cam.tracks) (length cam.tracks) cam.next_vid all_dets
          (suc (length all_dets)) (start_of all_dets cam) (alive_ids-NoTwice ts cam.tracks h.keys)
          (omega (arith, unset_all (length all_dets))) (start-Matched all_dets cam h) in
      let (camera, unique) = finish_frame-IsCamera all_dets cam m h good in
      (
        (finish_frame f ts all_dets cam m).0,
        (finish_frame f ts all_dets cam m).1,
        ap (Option.map (finish_frame f ts all_dets cam)) ends,
        camera,
        unique,
      )

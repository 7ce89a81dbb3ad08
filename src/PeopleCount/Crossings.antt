-- ===== src/PeopleCount/Crossings.antt =====
-- The crossings of one frame of people_count_tracker.cpp.
use vms_ai.Prelude.{
  FloatOps, Float, ◌≡◌, inl, inr, refl, sym, subst, ℤ, pos, pos_part, ◌≤ℤ◌, leb_ℤ, ◌==◌, Bool, true,
  false, ◌||◌, Bool-cases, Option, none, some, List, [], ◌∷◌, ◌++◌, length, if◌then◌else◌, lookup,
  int_eq,
}
use vms_ai.Tracker.{TrackState}
use vms_ai.PeopleCount.{
  CountingLine, LineCrossing, CrossKey, cross_key_beq, cross_key_beq_iff, cross_key_eq,
  PeopleCountTracker, lines_or_none, reload_from_db, ensure_loaded, held_back, fire, crossing_of,
  report, direction, visit_direction, visit_lines, is_passed_over, visit_tracks, check_crossings,
}
use vms_ai.PeopleCount.Cooldown.{
  times, Spaced, Spaced-append, times-append, IsTracker, fire-Apart, fired, fired_self-IsTracker,
  fired_other-IsTracker,
}

module _ (key : CrossKey) (cooldown : ℤ) (small : cooldown ≤ℤ pos 300000) where
  abbrev Follows : PeopleCountTracker → ℤ → Option ℤ → Type 0
  Follows = IsTracker key cooldown small

  -- A part of a frame: the last time after it, and the state.
  abbrev pub Goes : ℤ → ℤ → Option ℤ → PeopleCountTracker × List LineCrossing → Type 0
  Goes cam ts last r =
      (after : Option ℤ) × Follows r.0 ts after × Spaced cooldown last (times key cam r.1) after

  fire_held :
      (k : CrossKey) (ts : ℤ) (s : PeopleCountTracker)
      → held_back s.cooldown_ms ts (lookup k s.last_fire_ms) ≡ true
      → fire k ts s ≡ (s, false)
  unfolding fire
  fire_held k ts s h = rw (h) refl

  fire_free :
      (k : CrossKey) (ts : ℤ) (s : PeopleCountTracker)
      → held_back s.cooldown_ms ts (lookup k s.last_fire_ms) ≡ false
      → fire k ts s ≡ (fired key cooldown small k ts s, true)
  unfolding fire
  fire_free k ts s h = rw (h) refl

  -- A crossing that counts is of the key, or of another.
  counted-Goes :
      (cam ts : ℤ) (t : TrackState) (ln : CountingLine) (a_to_b : Bool) (s : PeopleCountTracker)
      (last : Option ℤ)
      → held_back s.cooldown_ms ts
          (lookup (record { cam = cam; line = ln.id; vid = t.virtual_track_id }) s.last_fire_ms)
        ≡ false
      → Follows s ts last
      → Goes cam ts last (
        fired key cooldown small
            (record { cam = cam; line = ln.id; vid = t.virtual_track_id })
            ts
            s,
        crossing_of t ln ts a_to_b ∷ [],
      )
  unfolding crossing_of
  counted-Goes cam ts t ln a_to_b s last free h =
      let k : CrossKey = record { cam = cam; line = ln.id; vid = t.virtual_track_id } in
      elim (Bool-cases (cross_key_beq k key)) [
        | inl b ↦
            let same = (cross_key_beq_iff k key).0 b in
            (
              some ts,
              subst (λ x. Follows (fired key cooldown small x ts s) ts (some ts)) (sym same)
                  (fired_self-IsTracker key cooldown small ts s last h),
              rw (b) (
                fire-Apart key cooldown small ts s last
                    (subst (λ x. held_back s.cooldown_ms ts (lookup x s.last_fire_ms) ≡ false) same
                      free)
                    h,
                refl,
              ),
            )
        | inr b ↦ (last, fired_other-IsTracker key cooldown small k ts s last b h, rw (b) refl)
      ]

  report-Goes :
      (cam ts : ℤ) (t : TrackState) (ln : CountingLine) (a_to_b : Bool) (s : PeopleCountTracker)
      (last : Option ℤ)
      → Follows s ts last
      → Goes cam ts last (
          report t ln ts a_to_b
            (fire (record { cam = cam; line = ln.id; vid = t.virtual_track_id }) ts s))
  unfolding report
  report-Goes cam ts t ln a_to_b s last h =
      let k : CrossKey = record { cam = cam; line = ln.id; vid = t.virtual_track_id } in
      elim (Bool-cases (held_back s.cooldown_ms ts (lookup k s.last_fire_ms))) [
        | inl held ↦
            subst (λ r. Goes cam ts last (report t ln ts a_to_b r)) (sym (fire_held k ts s held))
              (last, h, refl)
        | inr free ↦
            subst (λ r. Goes cam ts last (report t ln ts a_to_b r)) (sym (fire_free k ts s free))
              (counted-Goes cam ts t ln a_to_b s last free h)
      ]

  visit_direction-Goes :
      (cam ts : ℤ) (t : TrackState) (ln : CountingLine) (s : PeopleCountTracker) (way : Option Bool)
      (last : Option ℤ)
      → Follows s ts last
      → Goes cam ts last (visit_direction cam ts t ln s way)
  unfolding visit_direction
  visit_direction-Goes cam ts t ln s none last h = (last, h, refl)
  visit_direction-Goes cam ts t ln s (some a_to_b) last h = report-Goes cam ts t ln a_to_b s last h

  -- Two parts of a frame, one behind the other.
  Goes-append :
      (cam ts : ℤ) (last : Option ℤ) (r q : PeopleCountTracker × List LineCrossing)
      → Goes cam ts last r
      → ((after : Option ℤ) → Follows r.0 ts after → Goes cam ts after q)
      → Goes cam ts last (q.0, r.1 ++ q.1)
  Goes-append cam ts last r q (mid, h, spaced) next =
      let (after, k, more) = next mid h in
      (
        after,
        k,
        rw (times-append key cam r.1 q.1) (
            Spaced-append cooldown last mid after (times key cam r.1) (times key cam q.1) spaced
              more),
      )

  visit_lines-Goes :
      (f : FloatOps) (cam : ℤ) (fw fh : Float) (ts : ℤ) (t : TrackState) (lines : List CountingLine)
      (s : PeopleCountTracker) (last : Option ℤ)
      → Follows s ts last
      → Goes cam ts last (visit_lines f cam fw fh ts t lines s)
  unfolding visit_lines
  visit_lines-Goes f cam fw fh ts t [] s last h = (last, h, refl)
  visit_lines-Goes f cam fw fh ts t (ln ∷ lines) s last h =
      let r = visit_direction cam ts t ln s (direction f fw fh t ln) in
      Goes-append cam ts last r (visit_lines f cam fw fh ts t lines r.0)
        (visit_direction-Goes cam ts t ln s (direction f fw fh t ln) last h)
        (λ after k. visit_lines-Goes f cam fw fh ts t lines r.0 after k)

  visit_tracks-Goes :
      (f : FloatOps) (cam : ℤ) (fw fh : Float) (ts : ℤ) (lines : List CountingLine)
      (tracks : List TrackState) (s : PeopleCountTracker) (last : Option ℤ)
      → Follows s ts last
      → Goes cam ts last (visit_tracks f cam fw fh ts lines tracks s)
  unfolding visit_tracks
  visit_tracks-Goes f cam fw fh ts lines [] s last h = (last, h, refl)
  visit_tracks-Goes f cam fw fh ts lines (t ∷ tracks) s last h =
      let seen = if is_passed_over t then [] else lines in
      let r = visit_lines f cam fw fh ts t seen s in
      Goes-append cam ts last r (visit_tracks f cam fw fh ts lines tracks r.0)
        (visit_lines-Goes f cam fw fh ts t seen s last h)
        (λ after k. visit_tracks-Goes f cam fw fh ts lines tracks r.0 after k)

  reload_from_db-IsTracker :
      (rows : Option (List CountingLine)) (s : PeopleCountTracker) (ts : ℤ) (last : Option ℤ)
      → Follows s ts last
      → Follows (reload_from_db rows s) ts last
  unfolding reload_from_db
  reload_from_db-IsTracker none s ts last h = h
  reload_from_db-IsTracker (some rows) s ts none h = record {
    keys = h.keys;
    limit = h.limit;
    remembers = tt;
  }
  reload_from_db-IsTracker (some rows) s ts (some last) h = record {
    keys = h.keys;
    limit = h.limit;
    remembers = h.remembers;
  }

  if-IsTracker :
      (b : Bool) (x y : PeopleCountTracker) (ts : ℤ) (last : Option ℤ)
      → Follows x ts last
      → Follows y ts last
      → Follows (if b then x else y) ts last
  if-IsTracker true x y ts last h k = h
  if-IsTracker false x y ts last h k = k

  pub check_crossings-Goes :
      (f : FloatOps) (rows : Option (List CountingLine)) (cam : ℤ) (tracks : List TrackState)
      (w h ts : ℤ) (s : PeopleCountTracker) (last : Option ℤ)
      → Follows s ts last
      → Goes cam ts last (check_crossings f rows cam tracks w h ts s)
  unfolding check_crossings ensure_loaded
  check_crossings-Goes f rows cam tracks w h ts s last k =
      elim (Bool-cases (length tracks == 0 || leb_ℤ w (pos 0) || leb_ℤ h (pos 0))) [
        | inl b ↦ rw (b) (last, k, refl)
        | inr b ↦
            let s' = ensure_loaded rows s in
            rw (b) (
              visit_tracks-Goes f cam (f.of_nat (pos_part w)) (f.of_nat (pos_part h)) ts
                (lines_or_none (lookup cam s'.by_camera)) tracks s' last
                (if-IsTracker s.loaded s (reload_from_db rows s) ts last k
                  (reload_from_db-IsTracker rows s ts last k)))
      ]

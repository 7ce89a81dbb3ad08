-- ===== src/PeopleCount.antt =====
-- cpp-backend/include/core/people_count_tracker.h and cpp-backend/src/core/people_count_tracker.cpp:
-- the crossings of counting lines by the tracks of the tracker. The operations of floats that round
-- are a parameter. What the query of counting_lines gives is an argument of the reload. The box of a
-- crossing is that of its track.
pub mod Cooldown
pub mod Crossings
pub mod History
mod Tests
use vms_ai.Prelude.{
  Float, FloatOps, zero_float, ℕ, ◌+◌, ltb, ◌==◌, ℤ, pos, pos_part, ◌-ℤ◌, ltb_ℤ, leb_ℤ, int_beq,
  int_beq_iff, int_eq, Eq, Bool, true, false, not, ◌&&◌, ◌||◌, Option, none, some, List, [], ◌∷◌,
  ◌++◌, length, if◌then◌else◌, Map, lookup, insert, retain, Text, bytes, text_beq, ◌≡◌, ◌↔◌, refl,
  arith,
}
use vms_ai.Events.{Point2f}
use vms_ai.Tracker.{Rect2f, TrackState}

pub record CountingLine : Type 0 where
  pub id : ℤ
  pub camera_id : ℤ
  pub name : Text
  pub ax : Float
  pub ay : Float
  pub bx : Float
  pub by : Float
  pub dir_a_label : Text
  pub dir_b_label : Text
  pub object_classes : List Text
  pub enabled : Bool

pub record LineCrossing : Type 0 where
  pub line_id : ℤ
  pub line_name : Text
  pub direction_label : Text
  pub direction_code : Text
  pub virtual_track_id : ℤ
  pub person_id : ℤ
  pub object_class : Text
  pub bbox : Rect2f
  pub ts_ms : ℤ

pub record CrossKey : Type 0 where
  pub cam : ℤ
  pub line : ℤ
  pub vid : ℤ

abbrev pub cross_key_beq : CrossKey → CrossKey → Bool
cross_key_beq a b = int_beq a.cam b.cam && int_beq a.line b.line && int_beq a.vid b.vid

pub cross_key_beq_iff : (a b : CrossKey) → (cross_key_beq a b ≡ true) ↔ (a ≡ b)
cross_key_beq_iff a b = (
  λ h. ground (arith, int_beq_iff a.cam b.cam, int_beq_iff a.line b.line, int_beq_iff a.vid b.vid),
  λ h. ground (arith, int_beq_iff a.cam b.cam, int_beq_iff a.line b.line, int_beq_iff a.vid b.vid),
)

instance abbrev pub cross_key_eq : Eq CrossKey
cross_key_eq = record { beq = cross_key_beq; beq_iff = cross_key_beq_iff }

pub record PeopleCountTracker : Type 0 where
  pub cooldown_ms : ℤ
  pub loaded : Bool
  pub by_camera : Map ℤ (List CountingLine)
  pub last_fire_ms : Map CrossKey ℤ

-- The variable may be missing or empty; std::atoi is an argument.
unfoldable pub read_cooldown_ms_from_env : (Text → ℤ) → Option Text → ℤ
read_cooldown_ms_from_env atoi (some (c ∷ e)) =
    let v = atoi (c ∷ e) in
    let low = if ltb_ℤ v (pos 100) then pos 100 else v in
    if ltb_ℤ (pos 60000) low then pos 60000 else low
read_cooldown_ms_from_env atoi _ = pos 3000

-- The tracker as it is constructed.
unfoldable pub new : (Text → ℤ) → Option Text → PeopleCountTracker
new atoi env = record {
  cooldown_ms = read_cooldown_ms_from_env atoi env;
  loaded = false;
  by_camera = [];
  last_fire_ms = [];
}

abbrev pub lines_or_none : Option (List CountingLine) → List CountingLine
lines_or_none none = []
lines_or_none (some lines) = lines

unfoldable pub group_lines :
    List CountingLine → Map ℤ (List CountingLine) → Map ℤ (List CountingLine)
group_lines [] next = next
group_lines (ln ∷ rows) next =
    group_lines rows
      (insert ln.camera_id (lines_or_none (lookup ln.camera_id next) ++ ln ∷ []) next)

-- none: the database is not there, or the query fails.
unfoldable pub reload_from_db : Option (List CountingLine) → PeopleCountTracker → PeopleCountTracker
reload_from_db none s = s
reload_from_db (some rows) s = record s { by_camera = group_lines rows []; loaded = true }

unfoldable pub ensure_loaded : Option (List CountingLine) → PeopleCountTracker → PeopleCountTracker
ensure_loaded rows s = if s.loaded then s else reload_from_db rows s

unfoldable pub line_count : ℤ → PeopleCountTracker → ℕ
line_count camera_id s = length (lines_or_none (lookup camera_id s.by_camera))

unfoldable pub sum_lines : Map ℤ (List CountingLine) → ℕ
sum_lines [] = 0
sum_lines ((_, lines) ∷ rest) = length lines + sum_lines rest

unfoldable pub total_line_count : PeopleCountTracker → ℕ
total_line_count s = sum_lines s.by_camera

-- The opportunistic collection.
unfoldable pub collect_fires : ℤ → Map CrossKey ℤ → Map CrossKey ℤ
collect_fires ts_ms fires =
    if ltb 10000 (length fires)
    then retain (λ last. not (ltb_ℤ last (ts_ms -ℤ pos 300000))) fires
    else fires

-- The last crossing is too recent.
unfoldable pub held_back : ℤ → ℤ → Option ℤ → Bool
held_back cooldown ts_ms none = false
held_back cooldown ts_ms (some last) = ltb_ℤ (ts_ms -ℤ last) cooldown

-- The cooldown check, and whether the crossing counts.
unfoldable pub fire : CrossKey → ℤ → PeopleCountTracker → PeopleCountTracker × Bool
fire key ts_ms s =
    if held_back s.cooldown_ms ts_ms (lookup key s.last_fire_ms)
    then (s, false)
    else (record s { last_fire_ms = collect_fires ts_ms (insert key ts_ms s.last_fire_ms) }, true)

unfoldable pub matches_class : Text → List Text → Bool
matches_class cls [] = false
matches_class cls (c ∷ classes) = text_beq c cls || matches_class cls classes

-- One number is positive and the other negative.
unfoldable pub opposite : Float → Float → Bool
opposite d1 d2 =
    (ltb_ℤ zero_float d1 && ltb_ℤ d2 zero_float) || (ltb_ℤ d1 zero_float && ltb_ℤ zero_float d2)

unfoldable pub crossing_of : TrackState → CountingLine → ℤ → Bool → LineCrossing
crossing_of t ln ts_ms a_to_b = record {
  line_id = ln.id;
  line_name = ln.name;
  direction_label = if a_to_b then ln.dir_b_label else ln.dir_a_label;
  direction_code = if a_to_b then bytes "a_to_b" else bytes "b_to_a";
  virtual_track_id = t.virtual_track_id;
  person_id = t.person_id;
  object_class = t.object_class;
  bbox = t.bbox_curr;
  ts_ms = ts_ms;
}

-- What is reported, behind the cooldown check.
unfoldable pub report :
    TrackState
    → CountingLine
    → ℤ
    → Bool
    → PeopleCountTracker × Bool
    → PeopleCountTracker × List LineCrossing
report t ln ts_ms a_to_b (s, true) = (s, crossing_of t ln ts_ms a_to_b ∷ [])
report t ln ts_ms a_to_b (s, false) = (s, [])

-- A track without a previous position, or at rest.
unfoldable pub is_passed_over : TrackState → Bool
is_passed_over t =
    t.is_new
    || (int_beq t.centroid_curr.x t.centroid_prev.x && int_beq t.centroid_curr.y t.centroid_prev.y)

-- The line is crossed this way, or not.
unfoldable pub visit_direction :
    ℤ
    → ℤ
    → TrackState
    → CountingLine
    → PeopleCountTracker
    → Option Bool
    → PeopleCountTracker × List LineCrossing
visit_direction camera_id ts_ms t ln s none = (s, [])
visit_direction camera_id ts_ms t ln s (some a_to_b) =
    report t ln ts_ms a_to_b
      (fire (record { cam = camera_id; line = ln.id; vid = t.virtual_track_id }) ts_ms s)

module _ (f : FloatOps) where
  unfoldable pub signed_side : Point2f → Point2f → Point2f → Float
  signed_side p a b =
      f.sub (f.mul (f.sub b.x a.x) (f.sub p.y a.y)) (f.mul (f.sub b.y a.y) (f.sub p.x a.x))

  unfoldable pub segments_intersect : Point2f → Point2f → Point2f → Point2f → Bool
  segments_intersect p1 p2 a b =
      opposite (signed_side p1 a b) (signed_side p2 a b)
      && opposite (signed_side a p1 p2) (signed_side b p1 p2)

  -- Whether the track moved from side A to side B, where it crosses the line.
  unfoldable pub direction : Float → Float → TrackState → CountingLine → Option Bool
  direction fw fh t ln =
      let a : Point2f = record { x = f.mul ln.ax fw; y = f.mul ln.ay fh } in
      let b : Point2f = record { x = f.mul ln.bx fw; y = f.mul ln.by fh } in
      let prev_side = signed_side t.centroid_prev a b in
      let curr_side = signed_side t.centroid_curr a b in
      if not ln.enabled
      then none
      else if ltb 0 (length ln.object_classes)
          && not (matches_class t.object_class ln.object_classes)
      then none
      else if not (opposite prev_side curr_side)
      then none
      else if not (segments_intersect t.centroid_prev t.centroid_curr a b)
      then none
      else some (ltb_ℤ zero_float prev_side && ltb_ℤ curr_side zero_float)

  unfoldable pub visit_lines :
      ℤ
      → Float
      → Float
      → ℤ
      → TrackState
      → List CountingLine
      → PeopleCountTracker
      → PeopleCountTracker × List LineCrossing
  visit_lines camera_id fw fh ts_ms t [] s = (s, [])
  visit_lines camera_id fw fh ts_ms t (ln ∷ lines) s =
      let (s1, out) = visit_direction camera_id ts_ms t ln s (direction fw fh t ln) in
      let (s2, more) = visit_lines camera_id fw fh ts_ms t lines s1 in (s2, out ++ more)

  unfoldable pub visit_tracks :
      ℤ
      → Float
      → Float
      → ℤ
      → List CountingLine
      → List TrackState
      → PeopleCountTracker
      → PeopleCountTracker × List LineCrossing
  visit_tracks camera_id fw fh ts_ms lines [] s = (s, [])
  visit_tracks camera_id fw fh ts_ms lines (t ∷ tracks) s =
      let (s1, out) =
        visit_lines camera_id fw fh ts_ms t (if is_passed_over t then [] else lines) s in
      let (s2, more) = visit_tracks camera_id fw fh ts_ms lines tracks s1 in (s2, out ++ more)

  -- The rows are what the database gives if the lines are not loaded yet.
  unfoldable pub check_crossings :
      Option (List CountingLine)
      → ℤ
      → List TrackState
      → ℤ
      → ℤ
      → ℤ
      → PeopleCountTracker
      → PeopleCountTracker × List LineCrossing
  check_crossings rows camera_id tracks frame_w frame_h ts_ms s =
      if length tracks == 0 || leb_ℤ frame_w (pos 0) || leb_ℤ frame_h (pos 0)
      then (s, [])
      else (let s' = ensure_loaded rows s in
          visit_tracks camera_id (f.of_nat (pos_part frame_w)) (f.of_nat (pos_part frame_h)) ts_ms
            (lines_or_none (lookup camera_id s'.by_camera)) tracks s')

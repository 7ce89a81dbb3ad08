-- ===== src/PeopleCount/History.antt =====
-- The crossings that people_count_tracker.cpp reports over a history of frames.
use vms_ai.Prelude.{
  FloatOps, refl, ℤ, pos, ◌≤ℤ◌, Option, none, some, List, [], ◌∷◌, ◌++◌, Text, arith,
}
use vms_ai.Tracker.{TrackState}
use vms_ai.PeopleCount.{
  CountingLine, CrossKey, PeopleCountTracker, read_cooldown_ms_from_env, new, check_crossings,
}
use vms_ai.PeopleCount.Cooldown.{times, Spaced, Spaced-append, IsTracker, later-IsTracker}
use vms_ai.PeopleCount.Crossings.{check_crossings-Goes}

-- One call of checkCrossings.
pub record Frame : Type 0 where
  pub rows : Option (List CountingLine)
  pub camera_id : ℤ
  pub tracks : List TrackState
  pub frame_w : ℤ
  pub frame_h : ℤ
  pub ts_ms : ℤ

-- The times at which a line counts a track, over the frames.
unfoldable pub times_of : FloatOps → CrossKey → List Frame → PeopleCountTracker → List ℤ
times_of f key [] s = []
times_of f key (c ∷ cs) s =
    let (s', out) = check_crossings f c.rows c.camera_id c.tracks c.frame_w c.frame_h c.ts_ms s in
    times key c.camera_id out ++ times_of f key cs s'

-- The times of the frames never fall, from the one given on.
abbrev pub InOrder : ℤ → List Frame → Type 0
InOrder now [] = Unit
InOrder now (c ∷ cs) = (now ≤ℤ c.ts_ms) × InOrder c.ts_ms cs

cooldown_small :
    (atoi : Text → ℤ) (env : Option Text) → read_cooldown_ms_from_env atoi env ≤ℤ pos 300000
unfolding read_cooldown_ms_from_env
cooldown_small atoi none = omega arith
cooldown_small atoi (some []) = omega arith
cooldown_small atoi (some (c ∷ e)) = ground arith

times_of-Spaced :
    (f : FloatOps) (key : CrossKey) (cooldown : ℤ) (small : cooldown ≤ℤ pos 300000)
    (cs : List Frame) (now : ℤ) (s : PeopleCountTracker) (last : Option ℤ)
    → InOrder now cs
    → IsTracker key cooldown small s now last
    → (after : Option ℤ) × Spaced cooldown last (times_of f key cs s) after
unfolding times_of
times_of-Spaced f key cooldown small [] now s last o h = (last, refl)
times_of-Spaced f key cooldown small (c ∷ cs) now s last o h =
    let r = check_crossings f c.rows c.camera_id c.tracks c.frame_w c.frame_h c.ts_ms s in
    let (mid, k, first) =
      check_crossings-Goes key cooldown small f c.rows c.camera_id c.tracks c.frame_w c.frame_h
        c.ts_ms s last (later-IsTracker key cooldown small s now c.ts_ms last o.0 h) in
    let (after, rest) = times_of-Spaced f key cooldown small cs c.ts_ms r.0 mid o.1 k in
    (
      after,
      Spaced-append cooldown last mid after (times key c.camera_id r.1) (times_of f key cs r.0)
          first rest,
    )

-- Over any frames whose times never fall, of any cameras in any order, two crossings of one line by
-- one track, seen by one camera, are at least the cooldown apart. The collection of old entries does
-- not shorten it.
pub times_of-new-Spaced :
    (f : FloatOps) (atoi : Text → ℤ) (env : Option Text) (key : CrossKey) (now : ℤ)
    (cs : List Frame)
    → InOrder now cs
    → (after : Option ℤ) × Spaced
        (read_cooldown_ms_from_env atoi env)
        none
        (times_of f key cs (new atoi env))
        after
unfolding new
times_of-new-Spaced f atoi env key now cs o =
    times_of-Spaced f key (read_cooldown_ms_from_env atoi env) (cooldown_small atoi env) cs now
      (new atoi env) none o (record { keys = tt; limit = refl; remembers = tt })

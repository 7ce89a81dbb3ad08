-- ===== src/Tracker/Alive.antt =====
-- The tracks that are alive, and what a camera's state keeps.
use mathlib.Core.Option
use vms_ai.Prelude.{
  ℕ, zero, suc, ◌≤◌, ◌≡◌, ◌≢◌, refl, sym, ap, subst, ◌∙◌, ℤ, pos, ltb_ℤ, ◌≤ℤ◌, ◌+ℤ◌, ◌-ℤ◌, int_laws,
  int_beq, int_beq_iff, int_eq, Bool, false, leb, Bool-cases, inl, inr, Option, none, some, List,
  [], ◌∷◌, length, get_elem?, if◌then◌else◌, Map, lookup, insert, retain, lookup-insert,
  lookup-retain, Distinct, insert-Distinct, retain-Distinct, length-insert-le, length-retain-le,
  arith,
}
use vms_ai.Tracker.{
  TrackState, InternalTrack, CameraState, stale_age_ms, max_tracks_per_cam, alive_ids, is_fresh,
}
use vms_ai.Tracker.Steps.{collect_stale}
use vms_ai.Tracker.Match.{Below, Named, Known, insert-Named, NoTwice}

cons-Known :
    (vid k : ℤ) (t : InternalTrack) (m : Map ℤ InternalTrack) → Known m k → Known ((vid, t) ∷ m) k
unfolding lookup
cons-Known vid k t m (u, found) = elim (Bool-cases (int_beq vid k)) [
  | inl b ↦ (t, rw (b) refl)
  | inr b ↦ (u, rw (b) found)
]

head-Known : (vid : ℤ) (t : InternalTrack) (m : Map ℤ InternalTrack) → Known ((vid, t) ∷ m) vid
unfolding lookup
head-Known vid t m = (t, rw ((int_beq_iff vid vid).1 refl) refl)

at_index-Known :
    (vid : ℤ) (t : InternalTrack) (m : Map ℤ InternalTrack) (ids : List ℤ)
    → ((j : ℕ) (k : ℤ) → get_elem? ids j ≡ some k → Known m k)
    → (j : ℕ) (k : ℤ) → get_elem? (vid ∷ ids) j ≡ some k
    → Known ((vid, t) ∷ m) k
at_index-Known vid t m ids known zero k e =
    subst (Known ((vid, t) ∷ m)) (Option.some-injective vid k e) (head-Known vid t m)
at_index-Known vid t m ids known (suc j) k e = cons-Known vid k t m (known j k e)

-- What is alive is a track.
pub alive_ids-Known :
    (ts : ℤ) (m : Map ℤ InternalTrack) (j : ℕ) (k : ℤ)
    → get_elem? (alive_ids ts m) j ≡ some k
    → Known m k
unfolding alive_ids
alive_ids-Known ts [] j k h = cc
alive_ids-Known ts ((vid, t) ∷ m) j k h =
    elim (Bool-cases (ltb_ℤ stale_age_ms (ts -ℤ t.last_seen_ms))) [
      | inl b ↦ cons-Known vid k t m (alive_ids-Known ts m j k (rw (b) at h))
      | inr b ↦ at_index-Known vid t m (alive_ids ts m) (alive_ids-Known ts m) j k (rw (b) at h)
    ]

cons-NoTwice :
    (v : ℤ) (ids : List ℤ) → NoTwice ids → ((j : ℕ) → get_elem? ids j ≢ some v) → NoTwice (v ∷ ids)
cons-NoTwice v ids once out zero zero k h e = refl
cons-NoTwice v ids once out zero (suc j) k h e = absurd (out j (e ∙ sym h))
cons-NoTwice v ids once out (suc i) zero k h e = absurd (out i (h ∙ sym e))
cons-NoTwice v ids once out (suc i) (suc j) k h e = ap suc (once i j k h e)

pub alive_ids-NoTwice : (ts : ℤ) (m : Map ℤ InternalTrack) → Distinct m → NoTwice (alive_ids ts m)
unfolding alive_ids
alive_ids-NoTwice ts [] d = λ i j k h e. cc
alive_ids-NoTwice ts ((vid, t) ∷ m) d =
    elim (Bool-cases (ltb_ℤ stale_age_ms (ts -ℤ t.last_seen_ms))) [
      | inl b ↦ rw (b) (alive_ids-NoTwice ts m d.1)
      | inr b ↦ rw (b) (
          cons-NoTwice vid (alive_ids ts m) (alive_ids-NoTwice ts m d.1) (λ j e.
            let (u, found) = alive_ids-Known ts m j vid e in let bad = sym d.0 ∙ found in cc))
    ]

pub record IsCamera (cam : CameraState) : Type 0 where
  pub keys : Distinct cam.tracks
  pub named : Named cam.tracks
  pub below : Below cam.next_vid cam.tracks
  pub count : length cam.tracks ≤ max_tracks_per_cam

retain-lookup :
    (keep : InternalTrack → Bool) (k : ℤ) (t : InternalTrack) (m : Map ℤ InternalTrack)
    → Distinct m
    → lookup k (retain keep m) ≡ some t
    → lookup k m ≡ some t
retain-lookup keep k t m d h = from (lookup k m) (sym (lookup-retain keep k m d) ∙ h)
  where
    from :
        (o : Option InternalTrack)
        → (elim o [ none ↦ none | some v ↦ if keep v then some v else none ]) ≡ some t
        → o ≡ some t
    from none e = cc
    from (some v) e = elim (Bool-cases (keep v)) [
      | inl b ↦ rw (b) at e
      | inr b ↦ let bad = rw (b) at e in cc
    ]

pub collect_stale-IsCamera :
    (ts : ℤ) (cam : CameraState) → IsCamera cam → IsCamera (collect_stale ts cam)
unfolding collect_stale
collect_stale-IsCamera ts cam h = record {
  keys = retain-Distinct (is_fresh ts) cam.tracks h.keys;
  named = λ k t e. h.named k t (retain-lookup (is_fresh ts) k t cam.tracks h.keys e);
  below = λ k t e. h.below k t (retain-lookup (is_fresh ts) k t cam.tracks h.keys e);
  count = omega (arith, length-retain-le (is_fresh ts) cam.tracks, h.count);
}

-- The ids from one number on, below another.
abbrev pub Between : ℤ → ℤ → TrackState → Type 0
Between from below s = (from ≤ℤ s.virtual_track_id) × (s.virtual_track_id +ℤ pos 1 ≤ℤ below)

pub spawn_step-IsCamera :
    (cam : CameraState) (t : InternalTrack)
    → t.virtual_track_id ≡ cam.next_vid
    → leb max_tracks_per_cam (length cam.tracks) ≡ false
    → IsCamera cam
    → IsCamera
        (record { tracks = insert cam.next_vid t cam.tracks; next_vid = cam.next_vid +ℤ pos 1 })
spawn_step-IsCamera cam t e room h = record {
  keys = insert-Distinct cam.next_vid t cam.tracks h.keys;
  named = insert-Named cam.next_vid t cam.tracks e h.named;
  below = λ k u found. elim (Bool-cases (int_beq cam.next_vid k)) [
    | inl b ↦ rw ((int_beq_iff cam.next_vid k).0 b) (omega arith)
    | inr b ↦
        let before = h.below k u (rw (lookup-insert cam.next_vid k t cam.tracks, b) at found) in
        omega int_laws
  ];
  count = ground (arith, length-insert-le cam.next_vid t cam.tracks);
}

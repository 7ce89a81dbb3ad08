-- ===== src/Tracker/Match.antt =====
-- The greedy loop: it ends, and no track is matched twice.
use vms_ai.Prelude.{
  FloatOps, ℕ, zero, suc, ◌+◌, ◌≤◌, ◌≡◌, ◌≢◌, refl, sym, ap, subst, ◌∙◌, ℤ, pos, ◌+ℤ◌, ◌≤ℤ◌,
  int_beq, int_beq_iff, int_eq, Bool, true, false, Bool-cases, Option-cases, inl, inr, none, some,
  List, [], ◌∷◌, ◌++◌, length, get_elem?, get_or, set, All, All-append, All_weaken, Map, lookup,
  insert, lookup-insert, Distinct, insert-Distinct, arith,
}
use mathlib.Core.Option
use vms_ai.Tracker.{
  DetectionInput, TrackState, InternalTrack, blank_detection, iou_match_threshold, track_or_blank,
  state_of, Matching,
}
use vms_ai.Tracker.Steps.{matched_track, scan_detections, take_match, match_loop}
use vms_ai.Tracker.Scan.{Found, scan_detections-Found}

-- The flags that are not set.
abbrev pub unset : List Bool → ℕ
unset [] = 0
unset (true ∷ used) = unset used
unset (false ∷ used) = suc (unset used)

unset-set :
    (used : List Bool) (i : ℕ)
    → get_elem? used i ≡ some false
    → suc (unset (set used i true)) ≡ unset used
unset-set [] i h = cc
unset-set (b ∷ used) zero h = ground arith
unset-set (true ∷ used) (suc i) h = unset-set used i h
unset-set (false ∷ used) (suc i) h = ap suc (unset-set used i h)

set_keeps :
    (used : List Bool) (i j : ℕ)
    → get_elem? used j ≡ some true
    → get_elem? (set used i true) j ≡ some true
set_keeps [] i j h = cc
set_keeps (b ∷ used) zero zero h = refl
set_keeps (b ∷ used) zero (suc j) h = h
set_keeps (b ∷ used) (suc i) zero h = h
set_keeps (b ∷ used) (suc i) (suc j) h = set_keeps used i j h

set_marks :
    (used : List Bool) (i : ℕ) (b : Bool)
    → get_elem? used i ≡ some b
    → get_elem? (set used i true) i ≡ some true
set_marks [] i b h = cc
set_marks (c ∷ used) zero b h = refl
set_marks (c ∷ used) (suc i) b h = set_marks used i b h

get_or_found : (ids : List ℤ) (j : ℕ) (k d : ℤ) → get_elem? ids j ≡ some k → get_or ids j d ≡ k
get_or_found [] j k d h = cc
get_or_found (x ∷ ids) zero k d h = ground arith
get_or_found (x ∷ ids) (suc j) k d h = get_or_found ids j k d h

pub length-insert_known :
    (k : ℤ) (v w : InternalTrack) (m : Map ℤ InternalTrack)
    → lookup k m ≡ some w
    → length (insert k v m) ≡ length m
unfolding lookup insert
length-insert_known k v w [] h = cc
length-insert_known k v w ((j, x) ∷ m) h = elim (Bool-cases (int_beq j k)) [
  | inl b ↦ rw (b) refl
  | inr b ↦ rw (b) (ap suc (length-insert_known k v w m (rw (b) at h)))
]

-- Each track stands under its own id.
abbrev pub Named : Map ℤ InternalTrack → Type 0
Named tracks = (k : ℤ) (t : InternalTrack) → lookup k tracks ≡ some t → t.virtual_track_id ≡ k

abbrev pub Known : Map ℤ InternalTrack → ℤ → Type 0
Known tracks k = (t : InternalTrack) × (lookup k tracks ≡ some t)

pub insert-Named :
    (k : ℤ) (v : InternalTrack) (m : Map ℤ InternalTrack)
    → v.virtual_track_id ≡ k
    → Named m
    → Named (insert k v m)
insert-Named k v m e h = λ a u found. elim (Bool-cases (int_beq k a)) [
  | inl b ↦
      ap (λ (t : InternalTrack). t.virtual_track_id)
        (sym (Option.some-injective v u (rw (lookup-insert k a v m, b) at found)))
      ∙ e
      ∙ (int_beq_iff k a).0 b
  | inr b ↦ h a u (rw (lookup-insert k a v m, b) at found)
]

insert-Known :
    (k a : ℤ) (v : InternalTrack) (m : Map ℤ InternalTrack) → Known m a → Known (insert k v m) a
insert-Known k a v m (t, found) = elim (Bool-cases (int_beq k a)) [
  | inl b ↦ (v, lookup-insert k a v m ∙ rw (b) refl)
  | inr b ↦ (t, lookup-insert k a v m ∙ rw (b) found)
]

-- No id is reported twice.
abbrev pub AreUnique : List TrackState → Type 0
AreUnique [] = Unit
AreUnique (s ∷ ss) = All (λ r. s.virtual_track_id ≢ r.virtual_track_id) ss × AreUnique ss

pub append-AreUnique :
    (xs ys : List TrackState)
    → AreUnique xs
    → AreUnique ys
    → All (λ x. All (λ y. x.virtual_track_id ≢ y.virtual_track_id) ys) xs
    → AreUnique (xs ++ ys)
append-AreUnique [] ys h k a = k
append-AreUnique (x ∷ xs) ys h k a = (
  All-append (λ r. x.virtual_track_id ≢ r.virtual_track_id) xs ys h.0 a.0,
  append-AreUnique xs ys h.1 k a.1,
)

-- The ids of a list are distinct.
abbrev pub NoTwice : List ℤ → Type 0
NoTwice ids = (i j : ℕ) (k : ℤ) → get_elem? ids i ≡ some k → get_elem? ids j ≡ some k → i ≡ j

-- The report is of a track that is marked as matched.
abbrev pub Reported : List ℤ → List Bool → TrackState → Type 0
Reported ids used s =
    (j : ℕ) × (get_elem? used j ≡ some true) × (get_elem? ids j ≡ some s.virtual_track_id)

-- The ids are below next_vid.
abbrev pub Below : ℤ → Map ℤ InternalTrack → Type 0
Below next tracks = (k : ℤ) (t : InternalTrack) → lookup k tracks ≡ some t → k +ℤ pos 1 ≤ℤ next

insert-Below :
    (next k : ℤ) (v t : InternalTrack) (m : Map ℤ InternalTrack)
    → lookup k m ≡ some t
    → Below next m
    → Below next (insert k v m)
insert-Below next k v t m found h = λ a u e. elim (Bool-cases (int_beq k a)) [
  | inl b ↦ subst (λ x. x +ℤ pos 1 ≤ℤ next) ((int_beq_iff k a).0 b) (h k t found)
  | inr b ↦ h a u (rw (lookup-insert k a v m, b) at e)
]

module _ (ids : List ℤ) (size : ℕ) (next : ℤ) where
  pub record IsMatching (m : Matching) : Type 0 where
    pub keys : Distinct m.tracks
    pub count : length m.tracks ≡ size
    pub named : Named m.tracks
    pub below : Below next m.tracks
    pub known : (j : ℕ) (k : ℤ) → get_elem? ids j ≡ some k → Known m.tracks k
    pub reports : All (Reported ids m.trk_used) m.out
    pub unique : AreUnique m.out

module _ (f : FloatOps) (ts_ms : ℤ) (ids : List ℤ) (size : ℕ) (next : ℤ) where
  take_match-IsMatching :
      (i j : ℕ) (det : DetectionInput) (k : ℤ) (m : Matching)
      → NoTwice ids
      → get_elem? m.trk_used j ≡ some false
      → get_elem? ids j ≡ some k
      → IsMatching ids size next m
      → IsMatching ids size next (take_match f ts_ms i det j k m)
  unfolding take_match matched_track state_of
  take_match-IsMatching i j det k m once free at_j h =
      let (t, found) = h.known j k at_j in
      let new_t = matched_track f ts_ms det (track_or_blank (lookup k m.tracks)) in
      let named_new = (ap (λ o. (track_or_blank o).virtual_track_id) found ∙ h.named k t found) in
      (record {
        keys = insert-Distinct k new_t m.tracks h.keys;
        count = length-insert_known k new_t t m.tracks found ∙ h.count;
        named = insert-Named k new_t m.tracks named_new h.named;
        below = insert-Below next k new_t t m.tracks found h.below;
        known = λ a b e. insert-Known k b new_t m.tracks (h.known a b e);
        reports =
            All-append (Reported ids (set m.trk_used j true)) m.out (state_of new_t false ∷ [])
              (All_weaken (Reported ids m.trk_used) (Reported ids (set m.trk_used j true)) m.out
                (λ s (a, used, at_a). (a, set_keeps m.trk_used j a used, at_a)) h.reports)
              ((j, set_marks m.trk_used j false free, at_j ∙ ap some (sym named_new)), tt);
        unique =
            append-AreUnique m.out (state_of new_t false ∷ []) h.unique (tt, tt)
              (All_weaken (Reported ids m.trk_used)
                (λ x.
                  All (λ y. x.virtual_track_id ≢ y.virtual_track_id) (state_of new_t false ∷ []))
                m.out
                (λ s (a, used, at_a). (
                  (λ e.
                      let same = once a j k (at_a ∙ ap some (e ∙ named_new)) at_j in
                      let bad = subst (λ n. get_elem? m.trk_used n ≡ some true) same used in cc),
                  tt,
                ))
                h.reports);
      })

  abbrev next_of : List DetectionInput → ℕ → ℕ → Matching → Matching
  next_of dets i j m =
      take_match f ts_ms i (get_or dets i blank_detection) j (get_or ids j (pos 0)) m

  match_done :
      (dets : List DetectionInput) (fuel : ℕ) (m : Matching)
      → (scan_detections f m ids 0 dets m.det_used (iou_match_threshold, none)).1 ≡ none
      → match_loop f ts_ms dets ids (suc fuel) m ≡ some m
  unfolding match_loop
  match_done dets fuel m over = rw (over, match_loop) refl

  match_step :
      (dets : List DetectionInput) (fuel i j : ℕ) (m : Matching)
      → (scan_detections f m ids 0 dets m.det_used (iou_match_threshold, none)).1 ≡ some (i, j)
      → match_loop f ts_ms dets ids (suc fuel) m
        ≡ match_loop f ts_ms dets ids fuel (next_of dets i j m)
  unfolding match_loop
  match_step dets fuel i j m at_ij = rw (at_ij, match_loop) refl

  -- Each round marks a detection, so that one round more than detections is enough.
  pub match_loop_returns :
      (dets : List DetectionInput) (fuel : ℕ) (m : Matching)
      → NoTwice ids
      → unset m.det_used + 1 ≤ fuel
      → IsMatching ids size next m
      → (r : Matching) × (match_loop f ts_ms dets ids fuel m ≡ some r) × IsMatching ids size next r
  unfolding match_loop take_match
  match_loop_returns dets zero m once enough h = absurd (omega arith)
  match_loop_returns dets (suc fuel) m once enough h =
      let found =
        scan_detections-Found f m ids 0 dets m.det_used (iou_match_threshold, none) refl tt in
      elim (Option-cases
        (scan_detections f m ids 0 dets m.det_used (iou_match_threshold, none)).1) [
          | inl over ↦ (m, match_done dets fuel m over, h)
          | inr ((i, j), at_ij) ↦
              let (free_i, free_j, k, at_j) = subst (Found m.det_used m.trk_used ids) at_ij found in
              let (r, ends, good) =
                match_loop_returns dets fuel (next_of dets i j m) once
                  (omega (arith, unset-set m.det_used i free_i))
                  (rw (get_or_found ids j k (pos 0) at_j) (
                    take_match-IsMatching i j (get_or dets i blank_detection) k m once free_j at_j
                      h)) in
              (r, match_step dets fuel i j m at_ij ∙ ends, good)
        ]

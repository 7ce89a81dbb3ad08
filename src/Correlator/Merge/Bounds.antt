-- ===== src/Correlator/Merge/Bounds.antt =====
-- The bounds of a merged event.
use vms_ai.Prelude.{
  FloatOps, ℕ, zero, suc, ◌≤◌, ◌≡◌, refl, ℤ, ◌≤ℤ◌, ltb_ℤ, int_eq, Bool-cases, ap, ◌∙◌, ltb,
  if◌then◌else◌, ◌⊎◌, inl, inr, some, List, [], ◌∷◌, get_elem?, All, arith,
}
use vms_ai.Events.{RawEvent, EventSeverity, severity_rank, TimePoint, low}
use vms_ai.Rules.Model.{contains}
use vms_ai.Correlator.{CorrelatedEvent, EventCorrelator}
use vms_ai.Correlator.Merge.{min_time, max_time, best_of, highest_severity, merged, merge_events}
use vms_ai.Correlator.Merge.Places.{
  Increasing, has_camera, has_zone, collect_cameras-Increasing, collect_zones-Increasing,
  cameras_of, zones_of,
}

min_time-le : (t : TimePoint) (es : List RawEvent) → min_time t es ≤ℤ t
unfolding min_time
min_time-le t [] = omega arith
min_time-le t (e ∷ es) = ground (arith, min_time-le t es, min_time-le e.timestamp es)

max_time-ge : (t : TimePoint) (es : List RawEvent) → t ≤ℤ max_time t es
unfolding max_time
max_time-ge t [] = omega arith
max_time-ge t (e ∷ es) = ground (arith, max_time-ge t es, max_time-ge e.timestamp es)

min_time-All :
    (m t : TimePoint) (es : List RawEvent) → m ≡ min_time t es → All (λ e. m ≤ℤ e.timestamp) es
unfolding min_time
min_time-All m t [] h = tt
min_time-All m t (e ∷ es) h = (
  ground (arith, min_time-le t es, min_time-le e.timestamp es),
  min_time-All m (if ltb_ℤ e.timestamp t then e.timestamp else t) es h,
)

max_time-All :
    (m t : TimePoint) (es : List RawEvent) → m ≡ max_time t es → All (λ e. e.timestamp ≤ℤ m) es
unfolding max_time
max_time-All m t [] h = tt
max_time-All m t (e ∷ es) h = (
  ground (arith, max_time-ge t es, max_time-ge e.timestamp es),
  max_time-All m (if ltb_ℤ t e.timestamp then e.timestamp else t) es h,
)

highest_severity-ge :
    (s : EventSeverity) (es : List RawEvent)
    → severity_rank s ≤ severity_rank (highest_severity s es)
unfolding highest_severity
highest_severity-ge s [] = omega arith
highest_severity-ge s (e ∷ es) =
    ground (arith, highest_severity-ge s es, highest_severity-ge e.severity es)

highest_severity-All :
    (m s : EventSeverity) (es : List RawEvent)
    → m ≡ highest_severity s es
    → All (λ e. severity_rank e.severity ≤ severity_rank m) es
unfolding highest_severity
highest_severity-All m s [] h = tt
highest_severity-All m s (e ∷ es) h = (
  ground (arith, ap severity_rank h, highest_severity-ge s es, highest_severity-ge e.severity es),
  highest_severity-All m
      (if ltb (severity_rank s) (severity_rank e.severity) then e.severity else s) es h,
)

-- Some event of the list has this time.
abbrev pub OccursAt : TimePoint → List RawEvent → Type 0
OccursAt t es = (k : ℕ) × (e : RawEvent) × (get_elem? es k ≡ some e) × (t ≡ e.timestamp)

min_time_attained :
    (t : TimePoint) (es : List RawEvent) → (min_time t es ≡ t) ⊎ OccursAt (min_time t es) es
unfolding min_time
min_time_attained t [] = inl refl
min_time_attained t (e ∷ es) =
    elim (min_time_attained (if ltb_ℤ e.timestamp t then e.timestamp else t) es) [
      | inl same ↦ elim (Bool-cases (ltb_ℤ e.timestamp t)) [
        | inl b ↦ inr (0, e, refl, same ∙ rw (b) refl)
        | inr b ↦ inl (same ∙ rw (b) refl)
      ]
      | inr (k, x, found, same) ↦ inr (suc k, x, found, same)
    ]

max_time_attained :
    (t : TimePoint) (es : List RawEvent) → (max_time t es ≡ t) ⊎ OccursAt (max_time t es) es
unfolding max_time
max_time_attained t [] = inl refl
max_time_attained t (e ∷ es) =
    elim (max_time_attained (if ltb_ℤ t e.timestamp then e.timestamp else t) es) [
      | inl same ↦ elim (Bool-cases (ltb_ℤ t e.timestamp)) [
        | inl b ↦ inr (0, e, refl, same ∙ rw (b) refl)
        | inr b ↦ inl (same ∙ rw (b) refl)
      ]
      | inr (k, x, found, same) ↦ inr (suc k, x, found, same)
    ]

best_of-ge : (b : RawEvent) (es : List RawEvent) → b.confidence ≤ℤ (best_of b es).confidence
unfolding best_of
best_of-ge b [] = omega arith
best_of-ge b (e ∷ es) = ground (arith, best_of-ge b es, best_of-ge e es)

best_of-All :
    (m b : RawEvent) (es : List RawEvent)
    → m ≡ best_of b es
    → All (λ e. e.confidence ≤ℤ m.confidence) es
unfolding best_of
best_of-All m b [] h = tt
best_of-All m b (e ∷ es) h = (
  ground (arith, best_of-ge b es, best_of-ge e es),
  best_of-All m (if ltb_ℤ b.confidence e.confidence then e else b) es h,
)

-- An element of a list stays one when another is put in second.
skip_second :
    (b e : RawEvent) (es : List RawEvent) (m : RawEvent) (k : ℕ)
    → get_elem? (b ∷ es) k ≡ some m
    → (j : ℕ) × (get_elem? (b ∷ e ∷ es) j ≡ some m)
skip_second b e es m zero h = (zero, h)
skip_second b e es m (suc k) h = (suc (suc k), h)

best_of_attained :
    (b : RawEvent) (es : List RawEvent) → (k : ℕ) × (get_elem? (b ∷ es) k ≡ some (best_of b es))
unfolding best_of
best_of_attained b [] = (0, refl)
best_of_attained b (e ∷ es) = elim (Bool-cases (ltb_ℤ b.confidence e.confidence)) [
  | inl c ↦ let (k, at_k) = best_of_attained e es in (suc k, rw (c) at_k)
  | inr c ↦
      let (k, at_k) = best_of_attained b es in
      skip_second b e es (best_of b (e ∷ es)) k (rw (c) at_k)
]

-- What a merged event says of its cluster.
pub record Summarizes (cluster : List RawEvent) (c : CorrelatedEvent) : Type 0 where
  after_first : All (λ e. c.first_seen ≤ℤ e.timestamp) cluster
  before_last : All (λ e. e.timestamp ≤ℤ c.last_seen) cluster
  first_occurs : OccursAt c.first_seen cluster
  last_occurs : OccursAt c.last_seen cluster
  severest : All (λ e. severity_rank e.severity ≤ severity_rank c.severity) cluster
  cameras : (z : ℤ) → contains z c.camera_ids ≡ has_camera z cluster
  zones : (z : ℤ) → contains z c.all_zones ≡ has_zone z cluster
  sorted : Increasing c.camera_ids × Increasing c.all_zones
  best :
      (k : ℕ) × (e : RawEvent) × (get_elem? cluster k ≡ some e)
      × (c.best_snapshot_path ≡ e.snapshot_path)
      × (c.best_camera_id ≡ e.camera_id)
      × All (λ x. x.confidence ≤ℤ e.confidence) cluster

or_first :
    (t : TimePoint) (e : RawEvent) (es : List RawEvent)
    → (t ≡ e.timestamp) ⊎ OccursAt t (e ∷ es)
    → OccursAt t (e ∷ es)
or_first t e es (inl same) = (0, e, refl, same)
or_first t e es (inr at_k) = at_k

-- mergeEvents of a cluster that is not empty: first_seen and last_seen are times of events of the
-- cluster and no event lies outside them; no event is severer than the merged one; the cameras and
-- the known zones are exactly those of the events, each once and in increasing order; and the best
-- snapshot and camera are those of one event, whose confidence no other exceeds.
pub merge_events-Summarizes :
    (f : FloatOps) (first : RawEvent) (rest : List RawEvent) (s : EventCorrelator)
    → Summarizes (first ∷ rest) (merge_events f (first ∷ rest) s).1
unfolding merge_events merged
merge_events-Summarizes f first rest s =
    let cluster = first ∷ rest in
    let t = first.timestamp in
    record {
      after_first = min_time-All (min_time t cluster) t cluster refl;
      before_last = max_time-All (max_time t cluster) t cluster refl;
      first_occurs = or_first (min_time t cluster) first rest (min_time_attained t cluster);
      last_occurs = or_first (max_time t cluster) first rest (max_time_attained t cluster);
      severest = highest_severity-All (highest_severity low cluster) low cluster refl;
      cameras = λ z. cameras_of z cluster;
      zones = λ z. zones_of z cluster;
      sorted = (collect_cameras-Increasing cluster [] tt, collect_zones-Increasing cluster [] tt);
      best =
          (let (k, at_k) = best_of_attained first rest in
            (
              k,
              best_of first rest,
              at_k,
              refl,
              refl,
              (best_of-ge first rest, best_of-All (best_of first rest) first rest refl),
            ));
    }

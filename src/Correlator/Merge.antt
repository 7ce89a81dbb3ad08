-- ===== src/Correlator/Merge.antt =====
-- mergeEvents of event_correlator.cpp. The count of a cluster, an int, is an unbounded number.
pub mod Places
pub mod Bounds
use mathlib.Core.List
use vms_ai.Prelude.{
  zero_float, FloatOps, ℕ, suc, ◌+◌, ◌%◌, ◌^◌, ℤ, pos, negsuc, ◌-ℤ◌, ltb_ℤ, leb_ℤ, int_beq, Bool,
  true, false, not, ◌&&◌, ◌||◌, List, [], ◌∷◌, ◌++◌, map, ltb, ◌==◌, length, if◌then◌else◌, Text,
  bytes,
}
use vms_ai.Events.{RawEvent, EventSeverity, severity_rank, TimePoint, Float, Point2f, low}
use vms_ai.Correlator.{CorrelatedEvent, blank, EventCorrelator, to_milliseconds, at_origin}

-- std::set<int>::insert, in increasing order
unfoldable pub set_insert : ℤ → List ℤ → List ℤ
set_insert a [] = a ∷ []
set_insert a (b ∷ bs) =
    let rest = set_insert a bs in
    if ltb_ℤ a b then a ∷ b ∷ bs else if ltb_ℤ b a then b ∷ rest else b ∷ bs

unfoldable pub collect_cameras : List RawEvent → List ℤ → List ℤ
collect_cameras [] cameras = cameras
collect_cameras (e ∷ es) cameras = collect_cameras es (set_insert e.camera_id cameras)

unfoldable pub collect_zones : List RawEvent → List ℤ → List ℤ
collect_zones [] zones = zones
collect_zones (e ∷ es) zones =
    collect_zones es (if leb_ℤ (pos 0) e.zone_id then set_insert e.zone_id zones else zones)

abbrev pub first_zone : List ℤ → ℤ
first_zone [] = negsuc 0
first_zone (zone ∷ _) = zone

unfoldable pub min_time : TimePoint → List RawEvent → TimePoint
min_time t [] = t
min_time t (e ∷ es) = min_time (if ltb_ℤ e.timestamp t then e.timestamp else t) es

unfoldable pub max_time : TimePoint → List RawEvent → TimePoint
max_time t [] = t
max_time t (e ∷ es) = max_time (if ltb_ℤ t e.timestamp then e.timestamp else t) es

unfoldable pub sum_confidence : FloatOps → Float → List RawEvent → Float
sum_confidence f sum [] = sum
sum_confidence f sum (e ∷ es) = sum_confidence f (f.add sum e.confidence) es

-- sum_x, sum_y and count
unfoldable pub sum_positions : FloatOps → Float → Float → ℕ → List RawEvent → Float × Float × ℕ
sum_positions f x y count [] = (x, y, count)
sum_positions f x y count (e ∷ es) = elim (at_origin e) [
  | true ↦ sum_positions f x y count es
  | false ↦ sum_positions f (f.add x e.world_position.x) (f.add y e.world_position.y) (suc count) es
]

unfoldable pub centroid : FloatOps → List RawEvent → Point2f
centroid f es =
    let (sum_x, sum_y, count) = sum_positions f zero_float zero_float 0 es in
    if ltb 0 count
    then record { x = f.div sum_x (f.of_nat count); y = f.div sum_y (f.of_nat count) }
    else record { x = zero_float; y = zero_float }

-- std::max_element by confidence: the first of the greatest
unfoldable pub best_of : RawEvent → List RawEvent → RawEvent
best_of best [] = best
best_of best (e ∷ es) = best_of (if ltb_ℤ best.confidence e.confidence then e else best) es

unfoldable pub highest_severity : EventSeverity → List RawEvent → EventSeverity
highest_severity s [] = s
highest_severity s (e ∷ es) =
    highest_severity (if ltb (severity_rank s) (severity_rank e.severity) then e.severity else s) es

abbrev pub when : Bool → Text → List Text
when true reason = reason ∷ []
when false reason = []

-- The reasons, joined by "+".
unfoldable pub join : List Text → Text
join [] = []
join (r ∷ []) = r
join (r ∷ q ∷ rs) = r ++ (bytes "+" ++ join (q ∷ rs))

unfoldable pub correlation_reason_of : ℕ → List ℤ → List ℤ → ℤ → Text
correlation_reason_of size cameras zones duration =
    if size == 1
    then bytes "single_event"
    else join (
        when (ltb 1 (length cameras)) (bytes "multi_camera")
        ++ (when (ltb_ℤ (pos 1000) duration) (bytes "temporal")
            ++ when (ltb 0 (length zones)) (bytes "spatial")))

-- The merged event of a cluster that begins with `first`.
unfoldable pub merged : FloatOps → ℕ → RawEvent → List RawEvent → CorrelatedEvent
merged f id first rest =
    let cluster = first ∷ rest in
    let cameras = collect_cameras cluster [] in
    let zones = collect_zones cluster [] in
    let min = min_time first.timestamp cluster in
    let max = max_time first.timestamp cluster in
    let duration = to_milliseconds (max -ℤ min) in
    let best = best_of first rest in
    (record blank {
      correlation_id = id;
      type = first.type;
      event_count = length cluster;
      source_event_ids = map (λ (e : RawEvent). e.event_id) cluster;
      camera_ids = cameras;
      all_zones = zones;
      primary_zone_id = first_zone zones;
      first_seen = min;
      last_seen = max;
      duration = duration;
      avg_confidence = f.div (sum_confidence f zero_float cluster) (f.of_nat (length cluster));
      centroid_position = centroid f cluster;
      best_snapshot_path = best.snapshot_path;
      best_camera_id = best.camera_id;
      severity = highest_severity low cluster;
      correlation_reason = correlation_reason_of (length cluster) cameras zones duration;
    })

-- next_correlation_id_++
unfoldable pub generate_correlation_id : EventCorrelator → EventCorrelator × ℕ
generate_correlation_id s =
    (record s { next_correlation_id = (s.next_correlation_id + 1) % 2 ^ 64 }, s.next_correlation_id)

unfoldable pub merge_events :
    FloatOps → List RawEvent → EventCorrelator → EventCorrelator × CorrelatedEvent
merge_events f [] s = (s, blank)
merge_events f (first ∷ rest) s =
    let (s', id) = generate_correlation_id s in (s', merged f id first rest)

-- ===== src/Correlator.antt =====
-- cpp-backend/src/events/event_correlator.cpp, cpp-backend/include/events/event_correlator.h and the
-- correlated event of cpp-backend/include/events/event_types.h: the buffer of raw events, the tests
-- of two events, the clusters and their merging. The operations of IEEE floats that round are a
-- parameter, as is the reading of the JSON array of an embedding. The ticks of the system_clock are
-- those of Rules/Model, 100 ns. A worker thread calls process_buffer for the
-- timer and after each event. stats_start_time_, which is written only, is left out too.
pub mod Cluster
pub mod Merge
pub mod Buffer
mod Tests
use vms_ai.Prelude.{
  FloatOps, zero_float, ℕ, ◌+◌, ◌/◌, ◌^◌, ◌*◌, ℤ, pos, negsuc, pos_part, ◌-ℤ◌, ltb_ℤ, leb_ℤ,
  int_beq, Bool, true, false, not, ◌&&◌, ◌||◌, Option, none, some, List, [], ◌∷◌, ◌==◌, length,
  if◌then◌else◌, Map, Text, bytes,
}
use vms_ai.Rules.Model.{ticks_per_second}
use vms_ai.Events.{
  RawEvent, EventType, EventSeverity, TimePoint, Float, Json, Point2f, event_type_eq, unknown, low,
}

-- metadata["embedding"].get<std::vector<float>>(): there is no such key, the value is no array of
-- numbers (the call throws), or it is read
pub data Embedding : Type 0 where
  missing malformed : Embedding
  vector : List Float → Embedding

pub record Library : Type 0 where
  pub float : FloatOps
  pub embedding : Json → Embedding

-- 0.75f
abbrev pub same_person : Float
same_person = pos (3 * 2 ^ 147)

pub record CorrelatedEvent : Type 0 where
  pub correlation_id : ℕ  -- uint64_t
  pub type : EventType
  pub severity : EventSeverity
  pub source_event_ids : List ℕ
  pub camera_ids : List ℤ
  pub primary_zone_id : ℤ
  pub all_zones : List ℤ
  pub centroid_position : Point2f
  pub first_seen : TimePoint
  pub last_seen : TimePoint
  pub duration : ℤ  -- milliseconds
  pub event_count : ℕ
  pub avg_confidence : Float
  pub best_snapshot_path : Text
  pub best_camera_id : ℤ
  pub correlation_reason : Text
  pub metadata : Json
  pub acknowledged : Bool
  pub acknowledged_at : TimePoint
  pub acknowledged_by : Text

-- CorrelatedEvent{}; the dump of a null JSON is "null"
abbrev pub blank : CorrelatedEvent
blank = record {
  correlation_id = 0;
  type = unknown;
  severity = low;
  source_event_ids = [];
  camera_ids = [];
  primary_zone_id = negsuc 0;
  all_zones = [];
  centroid_position = record { x = zero_float; y = zero_float };
  first_seen = pos 0;
  last_seen = pos 0;
  duration = pos 0;
  event_count = 0;
  avg_confidence = zero_float;
  best_snapshot_path = [];
  best_camera_id = negsuc 0;
  correlation_reason = [];
  metadata = bytes "null";
  acknowledged = false;
  acknowledged_at = pos 0;
  acknowledged_by = [];
}

pub record EventStatistics : Type 0 where
  pub total_raw_events : ℕ  -- uint64_t, as the counters below
  pub total_correlated_events : ℕ
  pub active_correlations : ℕ
  pub events_by_type : Map EventType ℕ
  pub events_by_severity : Map EventSeverity ℕ
  pub events_by_zone : Map ℤ ℕ
  pub avg_correlation_latency_ms : Float
  pub reduction_percentage : Float
  pub period_start : TimePoint
  pub period_end : TimePoint

abbrev pub no_statistics : EventStatistics
no_statistics = record {
  total_raw_events = 0;
  total_correlated_events = 0;
  active_correlations = 0;
  events_by_type = [];
  events_by_severity = [];
  events_by_zone = [];
  avg_correlation_latency_ms = zero_float;
  reduction_percentage = zero_float;
  period_start = pos 0;
  period_end = pos 0;
}

-- A callback is a number.
pub record EventCorrelator : Type 0 where
  pub event_buffer : List RawEvent
  pub active_correlations : List CorrelatedEvent
  pub spatial_threshold : Float
  pub temporal_window : ℤ  -- milliseconds
  pub min_confidence : Float
  pub max_buffer_size : ℕ
  pub stats : EventStatistics
  pub callbacks : List ℕ
  pub is_running : Bool
  pub timer : Bool  -- the timer is installed, every 500 ms
  pub next_correlation_id : ℕ  -- uint64_t
  pub next_event_id : ℕ  -- uint64_t

abbrev pub new : TimePoint → EventCorrelator
new now = record {
  event_buffer = [];
  active_correlations = [];
  spatial_threshold = pos (2 ^ 150);  -- 2.0f
  temporal_window = pos 5000;
  min_confidence = pos (11744051 * 2 ^ 125);  -- 0.7f
  max_buffer_size = 1000;
  stats = record no_statistics { period_start = now };
  callbacks = [];
  is_running = false;
  timer = false;
  next_correlation_id = 1;
  next_event_id = 1;
}

-- duration_cast<milliseconds>(d).count() of a duration that is not negative
abbrev pub to_milliseconds : ℤ → ℤ
to_milliseconds d = pos (pos_part d / (ticks_per_second / 1000))

unfoldable pub temporal_correlation : ℤ → RawEvent → RawEvent → Bool
temporal_correlation window e1 e2 =
    let diff =
      if ltb_ℤ e2.timestamp e1.timestamp
      then e1.timestamp -ℤ e2.timestamp
      else e2.timestamp -ℤ e1.timestamp in
    ltb_ℤ (to_milliseconds diff) window

unfoldable pub tracking_correlation : RawEvent → RawEvent → Bool
tracking_correlation e1 e2 =
    int_beq e1.camera_id e2.camera_id
    && int_beq e1.track_id e2.track_id
    && leb_ℤ (pos 0) e1.track_id

-- No world position is known.
unfoldable pub at_origin : RawEvent → Bool
at_origin e = int_beq e.world_position.x zero_float && int_beq e.world_position.y zero_float

unfoldable pub distance : FloatOps → RawEvent → RawEvent → Float
distance f e1 e2 =
    let dx = f.sub e1.world_position.x e2.world_position.x in
    let dy = f.sub e1.world_position.y e2.world_position.y in
    f.sqrt (f.add (f.mul dx dx) (f.mul dy dy))

unfoldable pub spatial_correlation : FloatOps → Float → RawEvent → RawEvent → Bool
spatial_correlation f threshold e1 e2 =
    if int_beq e1.zone_id e2.zone_id && leb_ℤ (pos 0) e1.zone_id
    then true
    else if at_origin e1
    then false
    else if at_origin e2
    then false
    else ltb_ℤ (distance f e1 e2) threshold

-- The loop over two vectors of one size, from the sums given: dot, norm1 and norm2.
unfoldable pub products :
    FloatOps → Float → Float → Float → List Float → List Float → Float × Float × Float
products f dot norm1 norm2 (a ∷ as1) (b ∷ bs) =
    products f (f.add dot (f.mul a b)) (f.add norm1 (f.mul a a)) (f.add norm2 (f.mul b b)) as1 bs
products f dot norm1 norm2 _ _ = (dot, norm1, norm2)

unfoldable pub similar : FloatOps → List Float → List Float → Bool
similar f emb1 emb2 =
    if not (length emb1 == length emb2) || length emb1 == 0
    then false
    else (let (dot, norm1, norm2) = products f zero_float zero_float zero_float emb1 emb2 in
        if int_beq norm1 zero_float || int_beq norm2 zero_float
        then false
        else ltb_ℤ same_person (f.div dot (f.mul (f.sqrt norm1) (f.sqrt norm2))))

-- Both are there and are read.
unfoldable pub similar_embeddings : FloatOps → Embedding → Embedding → Bool
similar_embeddings f (vector emb1) (vector emb2) = similar f emb1 emb2
similar_embeddings f _ _ = false

-- An embedding that cannot be read throws, and the exception is caught.
unfoldable pub appearance_correlation : Library → RawEvent → RawEvent → Bool
appearance_correlation l e1 e2 =
    similar_embeddings l.float (l.embedding e1.metadata) (l.embedding e2.metadata)

unfoldable pub are_correlated : Library → EventCorrelator → RawEvent → RawEvent → Bool
are_correlated l s e1 e2 =
    if not (event_type_eq.beq e1.type e2.type)
    then false
    else if not (temporal_correlation s.temporal_window e1 e2)
    then false
    else tracking_correlation e1 e2
      || spatial_correlation l.float s.spatial_threshold e1 e2
      || appearance_correlation l e1 e2

-- ===== src/Correlator/Buffer.antt =====
-- The calls that change the state of event_correlator.cpp: processEvent, processBuffer, the setters,
-- and the reads. Each runs under the mutex; processBuffer reads the clock twice, here once. A
-- callback that throws is logged, so that the calls made are those of all callbacks.
pub mod Distinct
pub mod Newest
use mathlib.Core.List
use mathlib.Core.Option
use vms_ai.Prelude.{
  FloatOps, ℕ, suc, ◌+◌, ◌*◌, ◌-◌, ◌%◌, ◌^◌, ℤ, pos, ◌-ℤ◌, ◌*ℤ◌, ◌/◌, ltb_ℤ, leb_ℤ, Bool, true,
  false, not, ◌||◌, ◌&&◌, Option, none, some, List, [], ◌∷◌, ◌++◌, map, ltb, ◌==◌, length, drop,
  if◌then◌else◌, Map, lookup, insert, Eq, int_eq, nat_eq,
}
use vms_ai.Events.{RawEvent, TimePoint, Float, event_type_eq, event_severity_eq}
use vms_ai.Rules.Model.{ticks_per_second, contains}
use vms_ai.Correlator.{Library, CorrelatedEvent, EventStatistics, no_statistics, EventCorrelator}
use vms_ai.Correlator.Cluster.{cluster_events}
use vms_ai.Correlator.Merge.{merge_events}

abbrev count_or_zero : Option ℕ → ℕ
count_or_zero none = 0
count_or_zero (some n) = n

-- counts[key]++
unfoldable pub increment {ℓ} : {K : Type ℓ} ⦃e : Eq K⦄ → K → Map K ℕ → Map K ℕ
increment key counts = insert key ((count_or_zero (lookup key counts) + 1) % 2 ^ 64) counts

-- event_buffer_.push_back, and pop_front while the buffer is too long
unfoldable pub push_bounded : ℕ → List RawEvent → RawEvent → List RawEvent
push_bounded max_size buffer event =
    let grown = buffer ++ event ∷ [] in drop (length grown - max_size) grown

unfoldable pub count_event : RawEvent → EventStatistics → EventStatistics
count_event event t = record t {
  total_raw_events = (t.total_raw_events + 1) % 2 ^ 64;
  events_by_type = increment event.type t.events_by_type;
  events_by_severity = increment event.severity t.events_by_severity;
  events_by_zone =
      if leb_ℤ (pos 0) event.zone_id
      then increment event.zone_id t.events_by_zone
      else t.events_by_zone;
}

-- The event as it is stored, and next_event_id_ after it.
unfoldable pub with_id : RawEvent → ℕ → RawEvent × ℕ
with_id event next =
    if event.event_id == 0
    then (record event { event_id = next }, (next + 1) % 2 ^ 64)
    else (event, next)

unfoldable pub process_event : RawEvent → EventCorrelator → EventCorrelator
process_event event s =
    let (stored, next) = with_id event s.next_event_id in
    (record s {
      event_buffer = push_bounded s.max_buffer_size s.event_buffer stored;
      stats = count_event event s.stats;
      next_event_id = next;
    })

-- Those last seen at the cutoff or later.
unfoldable pub seen_since : TimePoint → List CorrelatedEvent → List CorrelatedEvent
seen_since cutoff [] = []
seen_since cutoff (c ∷ cs) =
    let rest = seen_since cutoff cs in if ltb_ℤ c.last_seen cutoff then rest else c ∷ rest

unfoldable pub get_recent_correlations : ℤ → TimePoint → EventCorrelator → List CorrelatedEvent
get_recent_correlations lookback now s =
    seen_since (now -ℤ (lookback *ℤ pos ticks_per_second)) s.active_correlations

unfoldable pub find_correlation : ℕ → List CorrelatedEvent → Option CorrelatedEvent
find_correlation id [] = none
find_correlation id (c ∷ cs) = if c.correlation_id == id then some c else find_correlation id cs

unfoldable pub get_correlation : ℕ → EventCorrelator → Option CorrelatedEvent
get_correlation id s = find_correlation id s.active_correlations

unfoldable pub recent_events : TimePoint → List RawEvent → List RawEvent
recent_events cutoff [] = []
recent_events cutoff (e ∷ es) =
    let rest = recent_events cutoff es in if ltb_ℤ e.timestamp cutoff then rest else e ∷ rest

-- Some id of the first list is in the second.
unfoldable pub shares : List ℕ → List ℕ → Bool
shares [] existing = false
shares (id ∷ ids) existing = contains id existing || shares ids existing

-- The loop over active_correlations_: the first that shares a source event is updated; none where
-- there is no such correlation.
unfoldable pub update_existing :
    CorrelatedEvent → List CorrelatedEvent → Option (List CorrelatedEvent)
update_existing correlated [] = none
update_existing correlated (c ∷ cs) =
    let rest = update_existing correlated cs in
    if shares correlated.source_event_ids c.source_event_ids
    then some
        (record c { last_seen = correlated.last_seen; event_count = correlated.event_count } ∷ cs)
    else Option.map (λ tail. c ∷ tail) rest

-- The end of the loop's body, after that search.
unfoldable pub put_correlated :
    CorrelatedEvent
    → EventCorrelator
    → Option (List CorrelatedEvent)
    → EventCorrelator × List CorrelatedEvent
put_correlated correlated s (some active) = (record s { active_correlations = active }, [])
put_correlated correlated s none = (
  record s {
    active_correlations = s.active_correlations ++ correlated ∷ [];
    stats = record s.stats {
      total_correlated_events = (s.stats.total_correlated_events + 1) % 2 ^ 64;
    };
  },
  correlated ∷ [],
)

-- The body of the loop over the clusters: the state, and the new correlation if it is one.
unfoldable pub add_correlated :
    CorrelatedEvent → EventCorrelator → EventCorrelator × List CorrelatedEvent
add_correlated correlated s =
    put_correlated correlated s (update_existing correlated s.active_correlations)

unfoldable pub merge_clusters :
    FloatOps → List (List RawEvent) → EventCorrelator → EventCorrelator × List CorrelatedEvent
merge_clusters f [] s = (s, [])
merge_clusters f ([] ∷ clusters) s = merge_clusters f clusters s
merge_clusters f ((e ∷ cluster) ∷ clusters) s =
    let (s1, correlated) = merge_events f (e ∷ cluster) s in
    let (s2, added) = add_correlated correlated s1 in
    let (s3, more) = merge_clusters f clusters s2 in (s3, added ++ more)

-- The fraction of events that are saved, in percent.
unfoldable pub reduction : FloatOps → EventStatistics → Float
reduction f t =
    if ltb 0 t.total_raw_events
    then f.mul
        (f.sub (f.of_nat 1)
          (f.div (f.of_nat t.total_correlated_events) (f.of_nat t.total_raw_events)))
        (f.of_nat 100)
    else t.reduction_percentage

unfoldable pub with_active : EventCorrelator → EventCorrelator
with_active s = record s {
  stats = record s.stats { active_correlations = length s.active_correlations };
}

-- The calls of the callbacks, in order.
unfoldable pub calls_of : List CorrelatedEvent → List ℕ → List (ℕ × CorrelatedEvent)
calls_of [] callbacks = []
calls_of (c ∷ cs) callbacks = map (λ (k : ℕ). (k, c)) callbacks ++ calls_of cs callbacks

-- What follows the clustering. The latency in milliseconds is an input.
unfoldable pub merge_all :
    FloatOps
    → ℕ
    → EventCorrelator
    → List (List RawEvent)
    → EventCorrelator × List (ℕ × CorrelatedEvent)
merge_all f latency s clusters =
    let (s1, added) = merge_clusters f clusters s in
    let s2 = with_active s1 in
    (
      record s2 {
        stats = record s2.stats {
          avg_correlation_latency_ms = f.of_nat latency;
          reduction_percentage = reduction f s2.stats;
        };
      },
      calls_of added s.callbacks,
    )

-- What follows the clean-up, with the buffer.
unfoldable pub process_events :
    Library
    → TimePoint
    → ℕ
    → EventCorrelator
    → List RawEvent
    → Option (EventCorrelator × List (ℕ × CorrelatedEvent))
process_events l now latency s [] = some (with_active s, [])
process_events l now latency s (event ∷ events) =
    let cutoff = now -ℤ (s.temporal_window *ℤ pos (ticks_per_second / 1000)) in
    Option.map (merge_all l.float latency s)
      (cluster_events l s (recent_events cutoff (event ∷ events)))

-- The state and the calls of the callbacks; none is the search without fuel, which does not happen.
unfoldable pub process_buffer :
    Library
    → TimePoint
    → ℕ
    → EventCorrelator
    → Option (EventCorrelator × List (ℕ × CorrelatedEvent))
process_buffer l now latency s =
    let cleanup_cutoff = now -ℤ pos (300 * ticks_per_second) in
    process_events l now latency
      (record s { active_correlations = seen_since cleanup_cutoff s.active_correlations })
      s.event_buffer

unfoldable pub set_spatial_threshold : Float → EventCorrelator → EventCorrelator
set_spatial_threshold meters s = record s { spatial_threshold = meters }

unfoldable pub set_temporal_window : ℤ → EventCorrelator → EventCorrelator
set_temporal_window ms s = record s { temporal_window = ms }

unfoldable pub set_min_correlation_confidence : Float → EventCorrelator → EventCorrelator
set_min_correlation_confidence conf s = record s { min_confidence = conf }

unfoldable pub set_max_buffer_size : ℕ → EventCorrelator → EventCorrelator
set_max_buffer_size size s = record s { max_buffer_size = size }

unfoldable pub get_statistics : TimePoint → EventCorrelator → EventStatistics
get_statistics now s = record s.stats { period_end = now }

unfoldable pub reset_statistics : TimePoint → EventCorrelator → EventCorrelator
reset_statistics now s = record s { stats = record no_statistics { period_start = now } }

unfoldable pub on_correlation : ℕ → EventCorrelator → EventCorrelator
on_correlation callback s = record s { callbacks = s.callbacks ++ callback ∷ [] }

unfoldable pub start : EventCorrelator → EventCorrelator
start s = if s.is_running then s else record s { is_running = true; timer = true }

unfoldable pub stop : EventCorrelator → EventCorrelator
stop s = if s.is_running then record s { is_running = false; timer = false } else s

-- ===== src/Correlator/Tests.antt =====
-- Runs of event_correlator.cpp, and its theorems at concrete events. The floats of the tests round
-- towards zero at whole units.
use vms_ai.Prelude.{
  FloatOps, ℕ, ◌+◌, ◌*◌, ◌/◌, ◌≡◌, refl, pos, negsuc, pos_part, ◌+ℤ◌, ◌-ℤ◌, ◌*ℤ◌, Bool, some, List,
  [], ◌∷◌, bytes, All,
}
use vms_ai.Events.{RawEvent, EventType-discrete, loitering, medium}
use vms_ai.Correlator.{
  Library, missing, CorrelatedEvent, EventCorrelator, new, are_correlated, temporal_correlation,
  tracking_correlation, spatial_correlation, appearance_correlation, similar_embeddings, at_origin,
  distance,
}
use vms_ai.Correlator.Cluster.{offer, neighbours, search, clusters_from, cluster_events}
use vms_ai.Correlator.Cluster.Scan.{tally}
use vms_ai.Correlator.Cluster.Groups.{flatten, Group, AreApart, cluster_events-AreGroups}
use vms_ai.Correlator.Merge.{merge_events}
use vms_ai.Correlator.Merge.Bounds.{Summarizes, merge_events-Summarizes}
use vms_ai.Correlator.Buffer.{process_buffer}
use vms_ai.Correlator.Buffer.Distinct.{AreDistinct, process_buffer-AreDistinct}

abbrev float : FloatOps
float = record {
  add = ◌+ℤ◌;
  sub = ◌-ℤ◌;
  mul = ◌*ℤ◌;
  div = λ a b. pos (pos_part a / pos_part b);
  sqrt = λ a. a;
  of_nat = pos;
}

abbrev library : Library
library = record { float = float; embedding = λ _. missing }

abbrev seen : ℕ → ℕ → ℕ → ℕ → RawEvent
seen id camera track at_second = record {
  event_id = id;
  camera_id = pos camera;
  type = loitering;
  severity = medium;
  zone_id = negsuc 0;
  bbox = record { x = pos 0; y = pos 0; width = pos 1; height = pos 1 };
  world_position = record { x = pos 0; y = pos 0 };
  object_class = bytes "person";
  track_id = pos track;
  confidence = pos (id + 1);
  timestamp = pos (at_second * 10_000_000);
  frame_number = 0;
  snapshot_path = [];
  snapshot_data = [];
  metadata = bytes "null";
}

abbrev start : EventCorrelator
start = new (pos 0)

-- Tracks 7 and 8 of camera 1, and a late event of track 7.
abbrev events : List RawEvent
events = seen 1 1 7 10 ∷ seen 2 1 8 11 ∷ seen 3 1 7 12 ∷ seen 4 1 7 18 ∷ []

three_clusters :
    cluster_events library start events
    ≡ some ((seen 1 1 7 10 ∷ seen 3 1 7 12 ∷ []) ∷ (seen 2 1 8 11 ∷ []) ∷ (seen 4 1 7 18 ∷ []) ∷ [])
unfolding cluster_events clusters_from search neighbours offer are_correlated temporal_correlation
    tracking_correlation spatial_correlation appearance_correlation similar_embeddings at_origin
    distance ◌-ℤ◌ EventType-discrete
three_clusters = refl

cluster_events-AreGroups_example :
    (cs : List (List RawEvent)) × (cluster_events library start events ≡ some cs)
    × ((p : RawEvent → Bool) → tally p (flatten cs) ≡ tally p events)
    × All (Group (are_correlated library start)) cs
    × AreApart (are_correlated library start) cs
cluster_events-AreGroups_example = cluster_events-AreGroups library start events

merge_events-Summarizes_example :
    Summarizes
      (seen 1 1 7 10 ∷ seen 3 1 7 12 ∷ [])
      (merge_events float (seen 1 1 7 10 ∷ seen 3 1 7 12 ∷ []) start).1
merge_events-Summarizes_example =
    merge_events-Summarizes float (seen 1 1 7 10) (seen 3 1 7 12 ∷ []) start

abbrev filled : EventCorrelator
filled = record start { event_buffer = events }

process_buffer-AreDistinct_example :
    (t : EventCorrelator) × (calls : List (ℕ × CorrelatedEvent)) × (process_buffer library
        (pos 130_000_000)
        1
        filled
      ≡ some (t, calls))
    × AreDistinct t.active_correlations
process_buffer-AreDistinct_example =
    process_buffer-AreDistinct library (pos 130_000_000) 1 filled tt

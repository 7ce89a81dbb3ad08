-- ===== src/Correlator/Cluster.antt =====
-- clusterEvents of event_correlator.cpp, a breadth-first search over the events that are correlated.
-- The search runs on fuel, and so many rounds as there are events are enough.
pub mod Scan
pub mod Search
pub mod Seed
pub mod Groups
use vms_ai.Prelude.{
  ℕ, zero, suc, Bool, true, false, Option, none, some, List, [], ◌∷◌, ◌++◌, length, get_elem?,
  get_or, set, replicate, if◌then◌else◌,
}
use mathlib.Core.Option
use vms_ai.Events.{RawEvent}
use vms_ai.Correlator.{Library, EventCorrelator, are_correlated}

-- Event j, where it is correlated, is marked and pushed in front of what the later ones push.
unfoldable pub offer : Bool → ℕ → List Bool × List ℕ → List Bool × List ℕ
offer true j (flags, pushed) = (true ∷ flags, j ∷ pushed)
offer false j (flags, pushed) = (false ∷ flags, pushed)

module _ (correlated : RawEvent → RawEvent → Bool) where
  -- The loop over the events from index j on: the flags after it and what it pushes.
  unfoldable pub neighbours : RawEvent → ℕ → List RawEvent → List Bool → List Bool × List ℕ
  neighbours e j (x ∷ xs) (true ∷ visited) =
      let (flags, pushed) = neighbours e (suc j) xs visited in (true ∷ flags, pushed)
  neighbours e j (x ∷ xs) (false ∷ visited) =
      offer (correlated e x) j (neighbours e (suc j) xs visited)
  neighbours e j _ visited = (visited, [])

  -- The loop over the queue: the cluster and the flags, or none where the fuel runs out or an index
  -- is not that of an event.
  unfoldable pub search :
      List RawEvent → ℕ → List ℕ → List RawEvent → List Bool → Option (List RawEvent × List Bool)
  search events zero [] cluster visited = some (cluster, visited)
  search events zero (idx ∷ queue) cluster visited = none
  search events (suc fuel) [] cluster visited = some (cluster, visited)
  search events (suc fuel) (idx ∷ queue) cluster visited = elim (get_elem? events idx) [
    | none ↦ none
    | some e ↦
        let (flags, pushed) = neighbours e 0 events visited in
        search events fuel (queue ++ pushed) (cluster ++ e ∷ []) flags
  ]

  -- if (!cluster.empty()) clusters.push_back(cluster), in front of the clusters that follow
  abbrev pub push_cluster : List RawEvent → List (List RawEvent) → List (List RawEvent)
  push_cluster [] clusters = clusters
  push_cluster (e ∷ cluster) clusters = (e ∷ cluster) ∷ clusters

  -- The loop over the events from index i on.
  unfoldable pub clusters_from :
      List RawEvent → ℕ → List RawEvent → List Bool → Option (List (List RawEvent))
  clusters_from events i [] visited = some []
  clusters_from events i (x ∷ xs) visited = elim (get_or visited i true) [
    | true ↦ clusters_from events (suc i) xs visited
    | false ↦ elim (search events (length events) (i ∷ []) [] (set visited i true)) [
      | none ↦ none
      | some (cluster, flags) ↦
          Option.map (push_cluster cluster) (clusters_from events (suc i) xs flags)
    ]
  ]

unfoldable pub cluster_events :
    Library → EventCorrelator → List RawEvent → Option (List (List RawEvent))
cluster_events l s events =
    clusters_from (are_correlated l s) events 0 events (replicate (length events) false)

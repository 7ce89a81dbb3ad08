-- ===== src/Correlator/Cluster/Groups.antt =====
-- What clusterEvents returns.
use vms_ai.Prelude.{
  ℕ, suc, ◌+◌, ◌≡◌, refl, sym, ap, subst, Bool, true, false, some, List, [], ◌∷◌, ◌++◌, length,
  get_elem?, get_or, set, drop, drop_step, replicate, All, All_weaken, All_trivial, Bool-cases, inl,
  inr, arith,
}
use mathlib.Core.List.{Mem}
use vms_ai.Events.{RawEvent}
use vms_ai.Correlator.{Library, EventCorrelator, are_correlated}
use vms_ai.Correlator.Cluster.{search, push_cluster, clusters_from, cluster_events}
use vms_ai.Correlator.Cluster.Scan.{unvisited, tally, one_at, tally-append, IsMarked}
use vms_ai.Correlator.Cluster.Search.{
  always, search_ends, search-All, search-Apart, search-tally, search-IsMarked, search_seed,
}
use vms_ai.Correlator.Cluster.Seed.{
  seed-tally, seed-All, seed-IsMarked, skip-IsMarked, marked_past, unvisited_blank, tally-le-length,
}

-- The events of all clusters, in a row.
abbrev pub flatten : List (List RawEvent) → List RawEvent
flatten [] = []
flatten (c ∷ cs) = c ++ flatten cs

module _ (correlated : RawEvent → RawEvent → Bool) where
  -- One event leads to another by steps that are correlated, each from an event of the cluster.
  pub data Chain (cluster : List RawEvent) (a : RawEvent) : RawEvent → Type 0 where
    here : Chain cluster a a
    step :
        {b c : RawEvent}
        → Chain cluster a b
        → Mem b cluster
        → correlated b c ≡ true
        → Chain cluster a c

  -- A cluster has a first event, which leads to all of its events without leaving the cluster.
  abbrev pub Group : List RawEvent → Type 0
  Group [] = ⊥
  Group (e ∷ cluster) = All (Chain (e ∷ cluster) e) (e ∷ cluster)

  -- No event is correlated with one of a later cluster.
  abbrev pub AreApart : List (List RawEvent) → Type 0
  AreApart [] = Unit
  AreApart (c ∷ cs) = All (λ e. All (All (λ x. correlated e x ≡ false)) cs) c × AreApart cs

  -- The same of the events that are left, and what holds of all of them stays with the clusters.
  record IsClustering (left : List RawEvent) (cs : List (List RawEvent)) : Type 1 where
    counted : (p : RawEvent → Bool) → tally p (flatten cs) ≡ tally p left
    groups : All Group cs
    apart : AreApart cs
    kept : (U : RawEvent → Type 0) → All U left → All (All U) cs

  IsClustering-nil : IsClustering [] []
  IsClustering-nil = record { counted = λ p. refl; groups = tt; apart = tt; kept = λ U u. tt }

  module _ (events : List RawEvent) where
    -- What one search from an unvisited event returns.
    record IsSearch (left : List RawEvent) (i : ℕ) (r : List RawEvent × List Bool) : Type 1 where
      group : Group r.0
      apart : All (λ e. All (λ x. correlated e x ≡ false) (unvisited events r.1)) r.0
      counted : (p : RawEvent → Bool) → tally p r.0 + tally p (unvisited events r.1) ≡ tally p left
      kept : (U : RawEvent → Type 0) → All U left → All U r.0 × All U (unvisited events r.1)
      marked : IsMarked (suc i) r.1

    search-IsSearch :
        (i : ℕ) (x : RawEvent) (visited : List Bool)
        → get_elem? events i ≡ some x
        → IsMarked i visited
        → get_or visited i true ≡ false
        → (r : List RawEvent × List Bool) × (search correlated events
              (length events)
              (i ∷ [])
              []
              (set visited i true)
            ≡ some r)
          × IsSearch (unvisited events visited) i r
    search-IsSearch i x visited at_i m v =
        let flags = set visited i true in
        let fuel = length events in
        let before = λ (p : RawEvent → Bool). seed-tally p events visited i x at_i v in
        let (r, ends) =
          search_ends correlated events fuel (i ∷ []) [] flags ((x, at_i, tt), tt)
            (omega (arith, before always, tally-le-length always events visited)) in
        let (more, seed) = search_seed correlated events fuel i flags x r at_i ends in
        let reach =
          search-All correlated events (Chain r.0 x) (λ _. Unit) r
            (λ e y to_e in_r c _. step to_e in_r c) fuel (i ∷ []) [] flags
            (All_trivial (unvisited events flags)) ((x, at_i, here), tt) tt ends in
        (
          r,
          ends,
          record {
            group = subst Group (sym seed) (subst (λ c. All (Chain c x) c) seed reach.0);
            apart = search-Apart correlated events fuel (i ∷ []) [] flags r tt ends;
            counted = λ p. omega (
              arith,
              before p,
              ap (one_at p) at_i,
              search-tally correlated events p fuel (i ∷ []) [] flags r ends,
            );
            kept = λ U u.
                let (others, ux) = seed-All U events visited i x at_i v u in
                search-All correlated events U U r (λ e y _ _ _ uy. uy) fuel (i ∷ []) [] flags
                  others ((x, at_i, ux), tt) tt ends;
            marked =
                search-IsMarked correlated events (suc i) fuel (i ∷ []) [] flags r
                  (seed-IsMarked visited i m) ends;
          },
        )

    push-IsClustering :
        (left : List RawEvent) (i : ℕ) (r : List RawEvent × List Bool) (cs : List (List RawEvent))
        → IsSearch left i r
        → IsClustering (unvisited events r.1) cs
        → IsClustering left (push_cluster correlated r.0 cs)
    push-IsClustering left i ([], flags) cs s h = absurd s.group
    push-IsClustering left i (e ∷ cluster, flags) cs s h = record {
      counted =
          λ p. omega (arith, s.counted p, h.counted p, tally-append p (e ∷ cluster) (flatten cs));
      groups = (s.group, h.groups);
      apart = (
        All_weaken (λ y. All (λ x. correlated y x ≡ false) (unvisited events flags))
            (λ y. All (All (λ x. correlated y x ≡ false)) cs) (e ∷ cluster)
            (λ y. h.kept (λ x. correlated y x ≡ false)) s.apart,
        h.apart,
      );
      kept = λ U u. ((s.kept U u).0, h.kept U (s.kept U u).1);
    }

    clusters_from-IsClustering :
        (i : ℕ) (xs : List RawEvent) (visited : List Bool)
        → drop i events ≡ xs
        → IsMarked i visited
        → (cs : List (List RawEvent)) × (clusters_from correlated events i xs visited ≡ some cs)
          × IsClustering (unvisited events visited) cs
    unfolding clusters_from
    clusters_from-IsClustering i [] visited d m =
        ([], refl, rw (marked_past events i visited d m) IsClustering-nil)
    clusters_from-IsClustering i (x ∷ xs) visited d m =
        let (at_i, next) = drop_step events i x xs d in
        elim (Bool-cases (get_or visited i true)) [
          | inl v ↦
              let (cs, ends, good) =
                clusters_from-IsClustering (suc i) xs visited next (skip-IsMarked visited i m v) in
              (cs, rw (v, clusters_from) ends, good)
          | inr v ↦
              let (r, found, one_more) = search-IsSearch i x visited at_i m v in
              let (cs, ends, good) =
                clusters_from-IsClustering (suc i) xs r.1 next one_more.marked in
              (
                push_cluster correlated r.0 cs,
                rw (v, found, ends, clusters_from) refl,
                push-IsClustering (unvisited events visited) i r cs one_more good,
              )
        ]

-- clusterEvents always ends with clusters. Each event is in exactly one of them, as often as it was
-- given (whatever test p one counts by); every cluster has a first event from which steps between
-- correlated events of that cluster lead to all of its events; and no event is correlated with one of a later
-- cluster.
pub cluster_events-AreGroups :
    (l : Library) (s : EventCorrelator) (events : List RawEvent)
    → (cs : List (List RawEvent)) × (cluster_events l s events ≡ some cs)
      × ((p : RawEvent → Bool) → tally p (flatten cs) ≡ tally p events)
      × All (Group (are_correlated l s)) cs
      × AreApart (are_correlated l s) cs
unfolding cluster_events
cluster_events-AreGroups l s events =
    let (cs, ends, good) =
      clusters_from-IsClustering (are_correlated l s) events 0 events
        (replicate (length events) false) refl tt in
    (cs, ends, λ p. rw (unvisited_blank events) at (good.counted p), good.groups, good.apart)

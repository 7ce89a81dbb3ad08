-- ===== src/Correlator/Buffer/Distinct.antt =====
-- The active correlations of event_correlator.cpp and their source events.
use mathlib.Core.Option
use vms_ai.Prelude.{
  FloatOps, ℕ, ◌≡◌, refl, sym, subst, true, false, Bool-cases, nat_eq, inl, inr, Option, none, some,
  List, [], ◌∷◌, ◌++◌, All, All-append, ◌==◌, ==_iff, arith, ◌-ℤ◌, ◌*ℤ◌, pos, ◌*◌, ◌/◌,
}
use vms_ai.Events.{RawEvent, TimePoint}
use vms_ai.Rules.Model.{contains, ticks_per_second}
use vms_ai.Correlator.{Library, CorrelatedEvent, EventCorrelator}
use vms_ai.Correlator.Cluster.Groups.{cluster_events-AreGroups}
use vms_ai.Correlator.Merge.{generate_correlation_id, merge_events}
use vms_ai.Correlator.Buffer.{
  seen_since, shares, update_existing, put_correlated, add_correlated, process_events, merge_all,
  merge_clusters, with_active, recent_events, process_buffer,
}

abbrev pub Disjoint : List ℕ → List ℕ → Type 0
Disjoint xs ys = (id : ℕ) → contains id xs ≡ true → contains id ys ≡ true → ⊥

-- No event is a source of two of the correlations.
abbrev pub AreDistinct : List CorrelatedEvent → Type 0
AreDistinct [] = Unit
AreDistinct (c ∷ cs) = All (λ d. Disjoint c.source_event_ids d.source_event_ids) cs × AreDistinct cs

shares-Disjoint : (xs ys : List ℕ) → shares xs ys ≡ false → Disjoint xs ys
unfolding shares contains
shares-Disjoint [] ys h id x y = cc
shares-Disjoint (a ∷ xs) ys h id x y = elim (Bool-cases (a == id)) [
  | inl same ↦
      let bad = subst (λ k. contains k ys ≡ true) (sym ((==_iff a id).0 same)) y in ground arith
  | inr other ↦ shares-Disjoint xs ys (ground arith) id (rw (other) at x) y
]

seen_since-All :
    (P : CorrelatedEvent → Type 0) (cutoff : TimePoint) (cs : List CorrelatedEvent)
    → All P cs
    → All P (seen_since cutoff cs)
unfolding seen_since
seen_since-All P cutoff [] h = tt
seen_since-All P cutoff (c ∷ cs) h = ground (arith, seen_since-All P cutoff cs h.1)

seen_since-AreDistinct :
    (cutoff : TimePoint) (cs : List CorrelatedEvent)
    → AreDistinct cs
    → AreDistinct (seen_since cutoff cs)
unfolding seen_since
seen_since-AreDistinct cutoff [] h = tt
seen_since-AreDistinct cutoff (c ∷ cs) h = ground (
  arith,
  seen_since-AreDistinct cutoff cs h.1,
  seen_since-All (λ d. Disjoint c.source_event_ids d.source_event_ids) cutoff cs h.0,
)

append-AreDistinct :
    (cs : List CorrelatedEvent) (x : CorrelatedEvent)
    → AreDistinct cs
    → All (λ c. Disjoint x.source_event_ids c.source_event_ids) cs
    → AreDistinct (cs ++ x ∷ [])
append-AreDistinct [] x h a = (tt, tt)
append-AreDistinct (c ∷ cs) x h a = (
  All-append (λ d. Disjoint c.source_event_ids d.source_event_ids) cs (x ∷ []) h.0
      ((λ id in_c in_x. a.0 id in_x in_c), tt),
  append-AreDistinct cs x h.1 a.1,
)

-- No correlation is updated where none shares a source event.
update_existing-Disjoint :
    (x : CorrelatedEvent) (cs : List CorrelatedEvent)
    → update_existing x cs ≡ none
    → All (λ c. Disjoint x.source_event_ids c.source_event_ids) cs
unfolding update_existing
update_existing-Disjoint x [] h = tt
update_existing-Disjoint x (c ∷ cs) h =
    elim (Bool-cases (shares x.source_event_ids c.source_event_ids)) [
      | inl b ↦ let bad = rw (b) at h in cc
      | inr b ↦ (
        shares-Disjoint x.source_event_ids c.source_event_ids b,
        update_existing-Disjoint x cs
            ((Option.map-eq-none_iff (λ tail. c ∷ tail) (update_existing x cs)).0 (rw (b) at h)),
      )
    ]

-- An update leaves the source events as they are.
update_existing-All :
    (P : List ℕ → Type 0) (x : CorrelatedEvent) (cs ds : List CorrelatedEvent)
    → update_existing x cs ≡ some ds
    → All (λ c. P c.source_event_ids) cs
    → All (λ c. P c.source_event_ids) ds
unfolding update_existing
update_existing-All P x [] ds h a = cc
update_existing-All P x (c ∷ cs) ds h a =
    elim (Bool-cases (shares x.source_event_ids c.source_event_ids)) [
      | inl b ↦ subst (All (λ d. P d.source_event_ids)) (Option.some-injective _ ds (rw (b) at h)) a
      | inr b ↦
          let (rest, found, same) =
            (Option.map-eq-some_iff (λ tail. c ∷ tail) (update_existing x cs)).0 (rw (b) at h) in
          subst (All (λ d. P d.source_event_ids)) same
            (a.0, update_existing-All P x cs rest found a.1)
    ]

update_existing-AreDistinct :
    (x : CorrelatedEvent) (cs ds : List CorrelatedEvent)
    → update_existing x cs ≡ some ds
    → AreDistinct cs
    → AreDistinct ds
unfolding update_existing
update_existing-AreDistinct x [] ds h a = cc
update_existing-AreDistinct x (c ∷ cs) ds h a =
    elim (Bool-cases (shares x.source_event_ids c.source_event_ids)) [
      | inl b ↦ subst AreDistinct (Option.some-injective _ ds (rw (b) at h)) a
      | inr b ↦
          let (rest, found, same) =
            (Option.map-eq-some_iff (λ tail. c ∷ tail) (update_existing x cs)).0 (rw (b) at h) in
          subst AreDistinct same (
            update_existing-All (Disjoint c.source_event_ids) x cs rest found a.0,
            update_existing-AreDistinct x cs rest found a.1,
          )
    ]

put_correlated-AreDistinct :
    (x : CorrelatedEvent) (s : EventCorrelator) (found : Option (List CorrelatedEvent))
    → update_existing x s.active_correlations ≡ found
    → AreDistinct s.active_correlations
    → AreDistinct (put_correlated x s found).0.active_correlations
unfolding put_correlated
put_correlated-AreDistinct x s none e h =
    append-AreDistinct s.active_correlations x h
      (update_existing-Disjoint x s.active_correlations e)
put_correlated-AreDistinct x s (some ds) e h =
    update_existing-AreDistinct x s.active_correlations ds e h

merge_clusters-AreDistinct :
    (f : FloatOps) (clusters : List (List RawEvent)) (s : EventCorrelator)
    → AreDistinct s.active_correlations
    → AreDistinct (merge_clusters f clusters s).0.active_correlations
unfolding merge_clusters add_correlated merge_events generate_correlation_id
merge_clusters-AreDistinct f [] s h = h
merge_clusters-AreDistinct f ([] ∷ clusters) s h = merge_clusters-AreDistinct f clusters s h
merge_clusters-AreDistinct f ((e ∷ cluster) ∷ clusters) s h =
    let x = (merge_events f (e ∷ cluster) s).1 in
    let s1 = (merge_events f (e ∷ cluster) s).0 in
    merge_clusters-AreDistinct f clusters (add_correlated x s1).0
      (put_correlated-AreDistinct x s1 (update_existing x s1.active_correlations) refl h)

process_events-AreDistinct :
    (l : Library) (now : TimePoint) (latency : ℕ) (s : EventCorrelator) (events : List RawEvent)
    → AreDistinct s.active_correlations
    → (t : EventCorrelator) × (calls : List (ℕ × CorrelatedEvent)) × (process_events l now latency s
          events
        ≡ some (t, calls))
      × AreDistinct t.active_correlations
unfolding process_events with_active merge_all
process_events-AreDistinct l now latency s [] h = (with_active s, [], refl, h)
process_events-AreDistinct l now latency s (event ∷ events) h =
    let cutoff = now -ℤ (s.temporal_window *ℤ pos (ticks_per_second / 1000)) in
    let (cs, ends, _, _, _) =
      cluster_events-AreGroups l s (recent_events cutoff (event ∷ events)) in
    let (t, calls) = merge_all l.float latency s cs in
    (t, calls, rw (ends) refl, merge_clusters-AreDistinct l.float cs s h)

-- processBuffer always ends, and keeps that no event is a source of two active correlations.
pub process_buffer-AreDistinct :
    (l : Library) (now : TimePoint) (latency : ℕ) (s : EventCorrelator)
    → AreDistinct s.active_correlations
    → (t : EventCorrelator) × (calls : List (ℕ × CorrelatedEvent)) × (process_buffer l now latency s
        ≡ some (t, calls))
      × AreDistinct t.active_correlations
unfolding process_buffer
process_buffer-AreDistinct l now latency s h =
    let cutoff = now -ℤ pos (300 * ticks_per_second) in
    process_events-AreDistinct l now latency
      (record s { active_correlations = seen_since cutoff s.active_correlations }) s.event_buffer
      (seen_since-AreDistinct cutoff s.active_correlations h)

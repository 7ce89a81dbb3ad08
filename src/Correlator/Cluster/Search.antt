-- ===== src/Correlator/Cluster/Search.antt =====
-- The loop over the queue of clusterEvents: it ends, and what its cluster and its flags are.
use vms_ai.Prelude.{
  ℕ, zero, suc, ◌+◌, ◌≤◌, ◌≡◌, refl, sym, ap, subst, ◌∙◌, Bool, true, false, some, List, [], ◌∷◌,
  ◌++◌, length, length-append, get_elem?, All, All-append, All_weaken, Option-cases, All_trivial,
  inl, inr, arith,
}
use mathlib.Core.List.{
  append-nil, append_assoc, Mem, mem-append_left, mem-append_right, mem-cons_self,
}
use mathlib.Core.Option
use vms_ai.Events.{RawEvent}
use vms_ai.Correlator.Cluster.{neighbours, search}
use vms_ai.Correlator.Cluster.Scan.{
  unvisited, tally, tally_at, tally-append, tally_at-append, one_at, AtIndex, IsMarked,
  neighbours-tally, neighbours-IsMarked, neighbours-All, neighbours_leave, neighbours_push,
}

abbrev pub always : RawEvent → Bool
always _ = true

pub tally_at-always :
    (events : List RawEvent) (S : RawEvent → Type 0) (is : List ℕ)
    → All (AtIndex events S) is
    → tally_at always events is ≡ length is
tally_at-always events S [] h = refl
tally_at-always events S (i ∷ is) h =
    let (x, found, _) = h.0 in rw (found) omega (arith, tally_at-always events S is h.1)

module _ (correlated : RawEvent → RawEvent → Bool) (events : List RawEvent) where
  abbrev flags_of : RawEvent → List Bool → List Bool
  flags_of e visited = (neighbours correlated e 0 events visited).0

  abbrev pushed_of : RawEvent → List Bool → List ℕ
  pushed_of e visited = (neighbours correlated e 0 events visited).1

  search_step :
      (fuel i : ℕ) (queue : List ℕ) (cluster : List RawEvent) (visited : List Bool) (e : RawEvent)
      → get_elem? events i ≡ some e
      → search correlated events (suc fuel) (i ∷ queue) cluster visited
        ≡ search correlated events fuel
            (queue ++ pushed_of e visited)
            (cluster ++ e ∷ [])
            (flags_of e visited)
  unfolding search
  search_step fuel i queue cluster visited e found = rw (found, search) refl

  search_inv :
      (fuel i : ℕ) (queue : List ℕ) (cluster : List RawEvent) (visited : List Bool)
      (r : List RawEvent × List Bool)
      → search correlated events (suc fuel) (i ∷ queue) cluster visited ≡ some r
      → (e : RawEvent) × (get_elem? events i ≡ some e)
        × (search correlated events fuel
              (queue ++ pushed_of e visited)
              (cluster ++ e ∷ [])
              (flags_of e visited)
            ≡ some r)
  unfolding search
  search_inv fuel i queue cluster visited r h = elim (Option-cases (get_elem? events i)) [
    | inl out ↦ let bad = rw (out, search) at h in cc
    | inr (e, found) ↦ (e, found, rw (found, search) at h)
  ]

  pub search_ends :
      (fuel : ℕ) (queue : List ℕ) (cluster : List RawEvent) (visited : List Bool)
      → All (AtIndex events (λ _. Unit)) queue
      → tally always (unvisited events visited) + length queue ≤ fuel
      → (r : List RawEvent × List Bool) × (search correlated events fuel queue cluster visited
          ≡ some r)
  unfolding search
  search_ends zero [] cluster visited q h = ((cluster, visited), refl)
  search_ends zero (i ∷ queue) cluster visited q h = absurd (omega arith)
  search_ends (suc fuel) [] cluster visited q h = ((cluster, visited), refl)
  search_ends (suc fuel) (i ∷ queue) cluster visited q h =
      let (e, found, _) = q.0 in
      let pushed = pushed_of e visited in
      let fresh =
        All_weaken (AtIndex events (λ x. (correlated e x ≡ true) × Unit))
          (AtIndex events (λ _. Unit)) pushed (λ j (x, at_j, _). (x, at_j, tt))
          (neighbours_push correlated events e (λ _. Unit) 0 events visited refl
            (All_trivial (unvisited events visited))) in
      rw (search_step fuel i queue cluster visited e found) (
        search_ends fuel (queue ++ pushed) (cluster ++ e ∷ []) (flags_of e visited)
          (All-append (AtIndex events (λ _. Unit)) queue pushed q.1 fresh)
          (omega (
            arith,
            neighbours-tally correlated events e always 0 events visited refl,
            tally_at-always events (λ _. Unit) pushed fresh,
            length-append queue pushed,
          )))

  -- The loop adds to the end of the cluster only.
  pub search_extends :
      (fuel : ℕ) (queue : List ℕ) (cluster : List RawEvent) (visited : List Bool)
      (r : List RawEvent × List Bool)
      → search correlated events fuel queue cluster visited ≡ some r
      → (more : List RawEvent) × (r.0 ≡ cluster ++ more)
  unfolding search
  search_extends zero [] cluster visited r h = ([], ground (arith, append-nil cluster))
  search_extends zero (i ∷ queue) cluster visited r h = cc
  search_extends (suc fuel) [] cluster visited r h = ([], ground (arith, append-nil cluster))
  search_extends (suc fuel) (i ∷ queue) cluster visited r h =
      let (e, found, rest) = search_inv fuel i queue cluster visited r h in
      let (more, same) =
        search_extends fuel (queue ++ pushed_of e visited) (cluster ++ e ∷ []) (flags_of e visited)
          r rest in
      (e ∷ more, same ∙ append_assoc cluster (e ∷ []) more)

  -- The event that is added stays in the cluster.
  in_result :
      (fuel : ℕ) (queue : List ℕ) (cluster : List RawEvent) (visited : List Bool) (e : RawEvent)
      (r : List RawEvent × List Bool)
      → search correlated events fuel queue (cluster ++ e ∷ []) visited ≡ some r
      → Mem e r.0
  in_result fuel queue cluster visited e r h =
      let (more, same) = search_extends fuel queue (cluster ++ e ∷ []) visited r h in
      subst (Mem e) (sym same) (mem-append_left more (mem-append_right cluster mem-cons_self))

  -- A property of the events that passes from an event of the cluster to the unvisited ones it is
  -- correlated with, and one of the unvisited events, hold of the cluster and of what is left.
  pub search-All :
      (S U : RawEvent → Type 0) (r : List RawEvent × List Bool)
      → ((e x : RawEvent) → S e → Mem e r.0 → correlated e x ≡ true → U x → S x)
      → (fuel : ℕ) (queue : List ℕ) (cluster : List RawEvent) (visited : List Bool)
      → All U (unvisited events visited)
      → All (AtIndex events S) queue
      → All S cluster
      → search correlated events fuel queue cluster visited ≡ some r
      → All S r.0 × All U (unvisited events r.1)
  unfolding search
  search-All S U r pass zero [] cluster visited u q c h = ground arith
  search-All S U r pass zero (i ∷ queue) cluster visited u q c h = cc
  search-All S U r pass (suc fuel) [] cluster visited u q c h = ground arith
  search-All S U r pass (suc fuel) (i ∷ queue) cluster visited u q c h =
      let (e, found, rest) = search_inv fuel i queue cluster visited r h in
      let (x, at_i, holds) = q.0 in
      let in_r =
        in_result fuel (queue ++ pushed_of e visited) cluster (flags_of e visited) e r rest in
      let holds_e = subst S (Option.some-injective x e (sym at_i ∙ found)) holds in
      let pushed = pushed_of e visited in
      let fresh =
        All_weaken (AtIndex events (λ y. (correlated e y ≡ true) × U y)) (AtIndex events S) pushed
          (λ j (y, at_j, (c_y, u_y)). (y, at_j, pass e y holds_e in_r c_y u_y))
          (neighbours_push correlated events e U 0 events visited refl u) in
      search-All S U r pass fuel (queue ++ pushed) (cluster ++ e ∷ []) (flags_of e visited)
        (neighbours-All correlated events e U 0 events visited u)
        (All-append (AtIndex events S) queue pushed q.1 fresh)
        (All-append S cluster (e ∷ []) c (holds_e, tt)) rest

  -- No event that is left is correlated with one of the cluster.
  abbrev pub Apart : List RawEvent → List Bool → Type 0
  Apart cluster visited =
      All (λ e. All (λ x. correlated e x ≡ false) (unvisited events visited)) cluster

  pub search-Apart :
      (fuel : ℕ) (queue : List ℕ) (cluster : List RawEvent) (visited : List Bool)
      (r : List RawEvent × List Bool)
      → Apart cluster visited
      → search correlated events fuel queue cluster visited ≡ some r
      → Apart r.0 r.1
  unfolding search
  search-Apart zero [] cluster visited r a h = ground arith
  search-Apart zero (i ∷ queue) cluster visited r a h = cc
  search-Apart (suc fuel) [] cluster visited r a h = ground arith
  search-Apart (suc fuel) (i ∷ queue) cluster visited r a h =
      let (e, found, rest) = search_inv fuel i queue cluster visited r h in
      let left =
        λ (v : List Bool) (x : RawEvent). All (λ y. correlated x y ≡ false) (unvisited events v) in
      let flags = flags_of e visited in
      search-Apart fuel (queue ++ pushed_of e visited) (cluster ++ e ∷ []) flags r
        (All-append (left flags) cluster (e ∷ [])
          (All_weaken (left visited) (left flags) cluster
            (λ x. neighbours-All correlated events e (λ y. correlated x y ≡ false) 0 events visited)
            a)
          (neighbours_leave correlated events e 0 events visited, tt))
        rest

  -- Each event is counted in the cluster, in the queue or among those left.
  pub search-tally :
      (p : RawEvent → Bool) (fuel : ℕ) (queue : List ℕ) (cluster : List RawEvent)
      (visited : List Bool) (r : List RawEvent × List Bool)
      → search correlated events fuel queue cluster visited ≡ some r
      → tally p r.0 + tally p (unvisited events r.1)
        ≡ tally p cluster + tally_at p events queue + tally p (unvisited events visited)
  unfolding search
  search-tally p zero [] cluster visited r h = ground arith
  search-tally p zero (i ∷ queue) cluster visited r h = cc
  search-tally p (suc fuel) [] cluster visited r h = ground arith
  search-tally p (suc fuel) (i ∷ queue) cluster visited r h =
      let (e, found, rest) = search_inv fuel i queue cluster visited r h in
      let pushed = pushed_of e visited in
      omega (
        arith,
        ap (one_at p) found,
        search-tally p fuel (queue ++ pushed) (cluster ++ e ∷ []) (flags_of e visited) r rest,
        tally-append p cluster (e ∷ []),
        tally_at-append p events queue pushed,
        neighbours-tally correlated events e p 0 events visited refl,
      )

  pub search-IsMarked :
      (k fuel : ℕ) (queue : List ℕ) (cluster : List RawEvent) (visited : List Bool)
      (r : List RawEvent × List Bool)
      → IsMarked k visited
      → search correlated events fuel queue cluster visited ≡ some r
      → IsMarked k r.1
  unfolding search
  search-IsMarked k zero [] cluster visited r m h = ground arith
  search-IsMarked k zero (i ∷ queue) cluster visited r m h = cc
  search-IsMarked k (suc fuel) [] cluster visited r m h = ground arith
  search-IsMarked k (suc fuel) (i ∷ queue) cluster visited r m h =
      let (e, found, rest) = search_inv fuel i queue cluster visited r h in
      search-IsMarked k fuel (queue ++ pushed_of e visited) (cluster ++ e ∷ []) (flags_of e visited)
        r (neighbours-IsMarked correlated events e k 0 events visited m) rest

  -- From one event, a cluster starts with it.
  pub search_seed :
      (fuel i : ℕ) (visited : List Bool) (x : RawEvent) (r : List RawEvent × List Bool)
      → get_elem? events i ≡ some x
      → search correlated events fuel (i ∷ []) [] visited ≡ some r
      → (more : List RawEvent) × (r.0 ≡ x ∷ more)
  unfolding search
  search_seed zero i visited x r at_i h = cc
  search_seed (suc fuel) i visited x r at_i h =
      let (e, found, rest) = search_inv fuel i [] [] visited r h in
      let (more, same) =
        search_extends fuel ([] ++ pushed_of e visited) (e ∷ []) (flags_of e visited) r rest in
      (more, rw (Option.some-injective x e (sym at_i ∙ found)) same)

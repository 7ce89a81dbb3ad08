-- ===== src/Correlator/Cluster/Seed.antt =====
-- The flag of the event that a cluster starts from.
use vms_ai.Prelude.{
  ℕ, zero, suc, ◌+◌, ◌≤◌, ◌≡◌, refl, Bool, true, false, some, List, [], ◌∷◌, length, get_elem?,
  get_or, set, drop, replicate, All, arith,
}
use vms_ai.Events.{RawEvent}
use vms_ai.Correlator.Cluster.Scan.{unvisited, one, tally, IsMarked}

pub seed-tally :
    (p : RawEvent → Bool) (events : List RawEvent) (visited : List Bool) (i : ℕ) (x : RawEvent)
    → get_elem? events i ≡ some x
    → get_or visited i true ≡ false
    → tally p (unvisited events (set visited i true)) + one (p x)
      ≡ tally p (unvisited events visited)
seed-tally p events [] i x at_i h = cc
seed-tally p [] (v ∷ visited) i x at_i h = cc
seed-tally p (e ∷ events) (v ∷ visited) zero x at_i h = ground arith
seed-tally p (e ∷ events) (true ∷ visited) (suc i) x at_i h = seed-tally p events visited i x at_i h
seed-tally p (e ∷ events) (false ∷ visited) (suc i) x at_i h =
    omega (arith, seed-tally p events visited i x at_i h)

pub seed-All :
    (P : RawEvent → Type 0) (events : List RawEvent) (visited : List Bool) (i : ℕ) (x : RawEvent)
    → get_elem? events i ≡ some x
    → get_or visited i true ≡ false
    → All P (unvisited events visited)
    → All P (unvisited events (set visited i true)) × P x
seed-All P events [] i x at_i h a = cc
seed-All P [] (v ∷ visited) i x at_i h a = cc
seed-All P (e ∷ events) (true ∷ visited) zero x at_i h a = cc
seed-All P (e ∷ events) (false ∷ visited) zero x at_i h a = ground arith
seed-All P (e ∷ events) (true ∷ visited) (suc i) x at_i h a = seed-All P events visited i x at_i h a
seed-All P (e ∷ events) (false ∷ visited) (suc i) x at_i h a =
    let (rest, px) = seed-All P events visited i x at_i h a.1 in ((a.0, rest), px)

pub seed-IsMarked :
    (visited : List Bool) (i : ℕ) → IsMarked i visited → IsMarked (suc i) (set visited i true)
seed-IsMarked [] i m = tt
seed-IsMarked (v ∷ visited) zero m = (refl, tt)
seed-IsMarked (v ∷ visited) (suc i) m = (m.0, seed-IsMarked visited i m.1)

pub skip-IsMarked :
    (visited : List Bool) (i : ℕ)
    → IsMarked i visited
    → get_or visited i true ≡ true
    → IsMarked (suc i) visited
skip-IsMarked [] i m h = tt
skip-IsMarked (v ∷ visited) zero m h = (h, tt)
skip-IsMarked (v ∷ visited) (suc i) m h = (m.0, skip-IsMarked visited i m.1 h)

pub marked_past :
    (events : List RawEvent) (i : ℕ) (visited : List Bool)
    → drop i events ≡ []
    → IsMarked i visited
    → unvisited events visited ≡ []
marked_past [] i visited d m = refl
marked_past (x ∷ events) zero visited d m = cc
marked_past (x ∷ events) (suc i) [] d m = refl
marked_past (x ∷ events) (suc i) (true ∷ visited) d m = marked_past events i visited d m.1
marked_past (x ∷ events) (suc i) (false ∷ visited) d m = cc

pub unvisited_blank :
    (events : List RawEvent) → unvisited events (replicate (length events) false) ≡ events
unvisited_blank [] = refl
unvisited_blank (x ∷ events) = rw (unvisited_blank events) refl

pub tally-le-length :
    (p : RawEvent → Bool) (events : List RawEvent) (visited : List Bool)
    → tally p (unvisited events visited) ≤ length events
tally-le-length p [] visited = omega arith
tally-le-length p (x ∷ events) [] = omega arith
tally-le-length p (x ∷ events) (true ∷ visited) = omega (arith, tally-le-length p events visited)
tally-le-length p (x ∷ events) (false ∷ visited) = ground (arith, tally-le-length p events visited)

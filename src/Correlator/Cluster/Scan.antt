-- ===== src/Correlator/Cluster/Scan.antt =====
-- The inner loop of clusterEvents: what it marks, and what it pushes.
use vms_ai.Prelude.{
  ℕ, zero, suc, ◌+◌, ◌≡◌, refl, Bool, true, false, Option, none, some, List, [], ◌∷◌, ◌++◌, length,
  get_elem?, drop, drop_step, All, arith,
}
use vms_ai.Events.{RawEvent}
use vms_ai.Correlator.Cluster.{offer, neighbours}

-- The events whose flag is not set.
abbrev pub unvisited : List RawEvent → List Bool → List RawEvent
unvisited (x ∷ xs) (true ∷ visited) = unvisited xs visited
unvisited (x ∷ xs) (false ∷ visited) = x ∷ unvisited xs visited
unvisited _ _ = []

abbrev pub one : Bool → ℕ
one true = 1
one false = 0

-- How many of the events pass a test.
abbrev pub tally : (RawEvent → Bool) → List RawEvent → ℕ
tally p [] = 0
tally p (x ∷ xs) = one (p x) + tally p xs

abbrev pub one_at : (RawEvent → Bool) → Option RawEvent → ℕ
one_at p none = 0
one_at p (some e) = one (p e)

-- The same for the events under a list of indices.
abbrev pub tally_at : (RawEvent → Bool) → List RawEvent → List ℕ → ℕ
tally_at p events [] = 0
tally_at p events (i ∷ is) = one_at p (get_elem? events i) + tally_at p events is

pub tally-append :
    (p : RawEvent → Bool) (xs ys : List RawEvent) → tally p (xs ++ ys) ≡ tally p xs + tally p ys
tally-append p [] ys = omega arith
tally-append p (x ∷ xs) ys = omega (arith, tally-append p xs ys)

pub tally_at-append :
    (p : RawEvent → Bool) (events : List RawEvent) (xs ys : List ℕ)
    → tally_at p events (xs ++ ys) ≡ tally_at p events xs + tally_at p events ys
tally_at-append p events [] ys = omega arith
tally_at-append p events (i ∷ is) ys = omega (arith, tally_at-append p events is ys)

-- There is an event under the index, and it satisfies S.
abbrev pub AtIndex : List RawEvent → (RawEvent → Type 0) → ℕ → Type 0
AtIndex events S i = (x : RawEvent) × (get_elem? events i ≡ some x) × S x

-- The first i flags are set, or past the end.
abbrev pub IsMarked : ℕ → List Bool → Type 0
IsMarked zero visited = Unit
IsMarked (suc i) [] = Unit
IsMarked (suc i) (v ∷ visited) = (v ≡ true) × IsMarked i visited

offer-All :
    (P : RawEvent → Type 0) (b : Bool) (j : ℕ) (x : RawEvent) (xs : List RawEvent)
    (r : List Bool × List ℕ)
    → (b ≡ false → P x)
    → All P (unvisited xs r.0)
    → All P (unvisited (x ∷ xs) (offer b j r).0)
unfolding offer
offer-All P true j x xs r h rest = rest
offer-All P false j x xs r h rest = (h refl, rest)

offer_push :
    (Q : ℕ → Type 0) (b : Bool) (j : ℕ) (r : List Bool × List ℕ)
    → (b ≡ true → Q j)
    → All Q r.1
    → All Q (offer b j r).1
unfolding offer
offer_push Q true j r h rest = (h refl, rest)
offer_push Q false j r h rest = rest

module _ (correlated : RawEvent → RawEvent → Bool) (events : List RawEvent) (e : RawEvent) where
  abbrev flags_of : ℕ → List RawEvent → List Bool → List Bool
  flags_of j xs visited = (neighbours correlated e j xs visited).0

  abbrev pushed_of : ℕ → List RawEvent → List Bool → List ℕ
  pushed_of j xs visited = (neighbours correlated e j xs visited).1

  -- Each event whose flag is set is pushed, once.
  pub neighbours-tally :
      (p : RawEvent → Bool) (j : ℕ) (xs : List RawEvent) (visited : List Bool)
      → drop j events ≡ xs
      → tally p (unvisited xs (flags_of j xs visited)) + tally_at p events (pushed_of j xs visited)
        ≡ tally p (unvisited xs visited)
  unfolding neighbours offer
  neighbours-tally p j [] visited d = refl
  neighbours-tally p j (x ∷ xs) [] d = refl
  neighbours-tally p j (x ∷ xs) (true ∷ visited) d =
      neighbours-tally p (suc j) xs visited (drop_step events j x xs d).1
  neighbours-tally p j (x ∷ xs) (false ∷ visited) d =
      let (found, next) = drop_step events j x xs d in
      let rest = neighbours-tally p (suc j) xs visited next in ground (arith, rest)

  pub length-neighbours :
      (j : ℕ) (xs : List RawEvent) (visited : List Bool)
      → length (flags_of j xs visited) ≡ length visited
  unfolding neighbours offer
  length-neighbours j [] visited = refl
  length-neighbours j (x ∷ xs) [] = refl
  length-neighbours j (x ∷ xs) (true ∷ visited) =
      ground (arith, length-neighbours (suc j) xs visited)
  length-neighbours j (x ∷ xs) (false ∷ visited) =
      ground (arith, length-neighbours (suc j) xs visited)

  -- A flag that is set stays set.
  pub neighbours-IsMarked :
      (i j : ℕ) (xs : List RawEvent) (visited : List Bool)
      → IsMarked i visited
      → IsMarked i (flags_of j xs visited)
  unfolding neighbours offer
  neighbours-IsMarked zero j xs visited h = tt
  neighbours-IsMarked (suc i) j [] [] h = tt
  neighbours-IsMarked (suc i) j (x ∷ xs) [] h = tt
  neighbours-IsMarked (suc i) j [] (v ∷ visited) h = h
  neighbours-IsMarked (suc i) j (x ∷ xs) (true ∷ visited) h =
      (refl, neighbours-IsMarked i (suc j) xs visited h.1)
  neighbours-IsMarked (suc i) j (x ∷ xs) (false ∷ visited) h = cc

  -- What is left satisfies what held before, and is not correlated with the event.
  pub neighbours-All :
      (P : RawEvent → Type 0) (j : ℕ) (xs : List RawEvent) (visited : List Bool)
      → All P (unvisited xs visited)
      → All P (unvisited xs (flags_of j xs visited))
  unfolding neighbours offer
  neighbours-All P j [] visited h = tt
  neighbours-All P j (x ∷ xs) [] h = tt
  neighbours-All P j (x ∷ xs) (true ∷ visited) h = neighbours-All P (suc j) xs visited h
  neighbours-All P j (x ∷ xs) (false ∷ visited) h =
      let rest = neighbours-All P (suc j) xs visited h.1 in
      offer-All P (correlated e x) j x xs (neighbours correlated e (suc j) xs visited) (λ _. h.0)
        rest

  pub neighbours_leave :
      (j : ℕ) (xs : List RawEvent) (visited : List Bool)
      → All (λ x. correlated e x ≡ false) (unvisited xs (flags_of j xs visited))
  unfolding neighbours offer
  neighbours_leave j [] visited = tt
  neighbours_leave j (x ∷ xs) [] = tt
  neighbours_leave j (x ∷ xs) (true ∷ visited) = neighbours_leave (suc j) xs visited
  neighbours_leave j (x ∷ xs) (false ∷ visited) =
      let rest = neighbours_leave (suc j) xs visited in
      offer-All (λ y. correlated e y ≡ false) (correlated e x) j x xs
        (neighbours correlated e (suc j) xs visited) (λ c. c) rest

  -- Each index that is pushed is that of an event correlated with this one, not marked before.
  pub neighbours_push :
      (P : RawEvent → Type 0) (j : ℕ) (xs : List RawEvent) (visited : List Bool)
      → drop j events ≡ xs
      → All P (unvisited xs visited)
      → All (AtIndex events (λ x. (correlated e x ≡ true) × P x)) (pushed_of j xs visited)
  unfolding neighbours offer
  neighbours_push P j [] visited d h = tt
  neighbours_push P j (x ∷ xs) [] d h = tt
  neighbours_push P j (x ∷ xs) (true ∷ visited) d h =
      neighbours_push P (suc j) xs visited (drop_step events j x xs d).1 h
  neighbours_push P j (x ∷ xs) (false ∷ visited) d h =
      let (found, next) = drop_step events j x xs d in
      let rest = neighbours_push P (suc j) xs visited next h.1 in
      offer_push (AtIndex events (λ y. (correlated e y ≡ true) × P y)) (correlated e x) j
        (neighbours correlated e (suc j) xs visited) (λ c. (x, found, (c, h.0))) rest

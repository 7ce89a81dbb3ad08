-- ===== src/RateLimiter/Window.antt =====
-- The sliding window of rate_limiter.h: what the pruning loop keeps.
use vms_ai.Prelude.{
  ℕ, suc, ◌≤◌, ◌≡◌, refl, Option, none, some, List, [], ◌∷◌, ◌++◌, ltb, if◌then◌else◌, length,
  arith,
}
use vms_ai.RateLimiter.{prune, back}

-- Times that do not fall along the deque.
abbrev pub Sorted : List ℕ → Type 0
Sorted [] = Unit
Sorted (t ∷ []) = Unit
Sorted (t ∷ u ∷ ts) = (t ≤ u) × Sorted (u ∷ ts)

-- The attempts at `cutoff` or later, wherever they stand.
abbrev pub keep_since : ℕ → List ℕ → List ℕ
keep_since cutoff [] = []
keep_since cutoff (t ∷ ts) =
    let rest = keep_since cutoff ts in if ltb t cutoff then rest else t ∷ rest

-- How many attempts fall at `cutoff` or later.
abbrev pub since : ℕ → List ℕ → ℕ
since cutoff [] = 0
since cutoff (t ∷ ts) = let rest = since cutoff ts in if ltb t cutoff then rest else suc rest

-- The last attempt is at `from` or later.
abbrev pub EndsFrom : ℕ → Option ℕ → Type 0
EndsFrom from none = ⊥
EndsFrom from (some t) = from ≤ t

Sorted-tail : (t : ℕ) (ts : List ℕ) → Sorted (t ∷ ts) → Sorted ts
Sorted-tail t [] h = tt
Sorted-tail t (u ∷ ts) h = h.1

keep_since_all : (c t : ℕ) (ts : List ℕ) → c ≤ t → Sorted (t ∷ ts) → keep_since c ts ≡ ts
keep_since_all c t [] h s = refl
keep_since_all c t (u ∷ ts) h s = ground (arith, keep_since_all c u ts)

-- On times in order, the loop that stops at the first young attempt keeps every young one.
pub prune-keep_since : (c : ℕ) (ts : List ℕ) → Sorted ts → prune c ts ≡ keep_since c ts
unfolding prune
prune-keep_since c [] s = refl
prune-keep_since c (t ∷ ts) s =
    ground (arith, prune-keep_since c ts (Sorted-tail t ts s), keep_since_all c t ts)

pub since-le-length : (c : ℕ) (ts : List ℕ) → since c ts ≤ length ts
since-le-length c [] = omega arith
since-le-length c (t ∷ ts) = ground (arith, since-le-length c ts)

-- Pruning drops no attempt of a later cutoff.
pub since-prune : (c from : ℕ) (ts : List ℕ) → c ≤ from → since from (prune c ts) ≡ since from ts
unfolding prune
since-prune c from [] h = refl
since-prune c from (t ∷ ts) h = ground (arith, since-prune c from ts h)

pub since-push :
    (from t : ℕ) (ts : List ℕ) → from ≤ t → since from (ts ++ t ∷ []) ≡ suc (since from ts)
since-push from t [] h = ground arith
since-push from t (u ∷ ts) h = ground (arith, since-push from t ts h)

back-push : (t : ℕ) (ts : List ℕ) → back (ts ++ t ∷ []) ≡ some t
back-push t [] = refl
back-push t (u ∷ []) = refl
back-push t (u ∷ v ∷ ts) = back-push t (v ∷ ts)

pub push-EndsFrom : (from t : ℕ) (ts : List ℕ) → from ≤ t → EndsFrom from (back (ts ++ t ∷ []))
push-EndsFrom from t ts h = rw (back-push t ts) h

pub prune-EndsFrom :
    (c from : ℕ) (ts : List ℕ)
    → c ≤ from
    → EndsFrom from (back ts)
    → EndsFrom from (back (prune c ts))
unfolding prune
prune-EndsFrom c from [] h e = e
prune-EndsFrom c from (t ∷ []) h e = ground arith
prune-EndsFrom c from (t ∷ u ∷ ts) h e = ground (arith, prune-EndsFrom c from (u ∷ ts) h e)

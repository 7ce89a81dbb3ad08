-- ===== src/RateLimiter/Eviction.antt =====
-- evictStale of rate_limiter.h: what the periodic clean-up may be seen to do.
use vms_ai.Prelude.{
  ℕ, ◌-◌, ◌≤◌, ◌<◌, ◌≡◌, refl, ◌⊎◌, inl, inr, true, not, List, [], ◌∷◌, arith, Bool-cases, Text,
  text_eq, Distinct, lookup-retain,
}
use vms_ai.RateLimiter.{
  RateLimiter, Entry, new_entry, seconds, prune, back, older, is_idle, evict_stale, entry_of,
  allow_entry, is_allowed,
}
use vms_ai.RateLimiter.Window.{Sorted}
use vms_ai.RateLimiter.Entries.{entry_of-evict_stale}

first_old : (c t : ℕ) (ts : List ℕ) → Sorted (t ∷ ts) → older c (back (t ∷ ts)) ≡ true → t < c
first_old c t [] s o = ground arith
first_old c t (u ∷ ts) s o = omega (arith, first_old c u ts s.1 o)

-- Attempts that end before the cutoff all fall to a later cutoff.
prune-old : (c d : ℕ) (ts : List ℕ) → c ≤ d → Sorted ts → older c (back ts) ≡ true → prune d ts ≡ []
unfolding prune
prune-old c d [] h s o = refl
prune-old c d (t ∷ []) h s o = ground arith
prune-old c d (t ∷ u ∷ ts) h s o = ground (arith, prune-old c d (u ∷ ts), first_old c t (u ∷ ts))

idle_is_allowed :
    (m w now : ℕ) (e : Entry)
    → 0 < m
    → w ≤ 86400
    → Sorted e.attempts
    → is_idle now e ≡ true
    → (allow_entry m w now e).1 ≡ true
unfolding allow_entry is_idle
idle_is_allowed m w now e some_limit day sorted idle =
    ground (arith, prune-old (now - seconds 86400) (now - seconds w) e.attempts)

new_is_allowed : (m w now : ℕ) → 0 < m → (allow_entry m w now new_entry).1 ≡ true
unfolding allow_entry prune
new_is_allowed m w now h = ground arith

evicted :
    (key : Text) (now : ℕ) (s : RateLimiter)
    → Distinct s.entries
    → is_idle now (entry_of key s) ≡ true
    → (entry_of key (evict_stale now s) ≡ entry_of key s)
      ⊎ (entry_of key (evict_stale now s) ≡ new_entry)
unfolding evict_stale
evicted key now s d idle = ground (arith, lookup-retain (λ e. not (is_idle now e)) key s.entries d)

-- The clean-up that isAllowed runs first never changes its answer: with at least one failure
-- allowed, a window of at most 24 hours and attempts in order, isAllowed answers as its test does on
-- the entry that stood there before the clean-up.
pub is_allowed-eviction :
    (key : Text) (m w now : ℕ) (s : RateLimiter)
    → 0 < m
    → w ≤ 86400
    → Distinct s.entries
    → Sorted (entry_of key s).attempts
    → (is_allowed key m w now s).1 ≡ (allow_entry m w now (entry_of key s)).1
unfolding is_allowed
is_allowed-eviction key m w now s some_limit day d sorted =
    elim (Bool-cases (is_idle now (entry_of key s))) [
      | inr busy ↦ rw (entry_of-evict_stale key now s d busy)
      | inl idle ↦ elim (evicted key now s d idle) [
        | inl same ↦ rw same
        | inr gone ↦ rw (
          gone,
          new_is_allowed m w now some_limit,
          idle_is_allowed m w now (entry_of key s) some_limit day sorted idle,
        )
      ]
    ]

-- ===== src/RateLimiter/Guard.antt =====
-- What one call of rate_limiter.h does to the entry of a key that is counting or locked.
use vms_ai.Prelude.{
  ℕ, suc, ◌+◌, ◌-◌, ◌≤◌, ◌<◌, ◌≡◌, ◌∙◌, false, ◌⊎◌, inl, inr, List, [], ◌∷◌, ◌++◌, leb, length,
  arith, Bool-cases, text_eq,
}
use vms_ai.RateLimiter.{Entry, seconds, prune, back, is_idle, allow_entry, fail_entry}
use vms_ai.RateLimiter.Window.{
  since, EndsFrom, since-le-length, since-prune, since-push, push-EndsFrom, prune-EndsFrom,
}

-- `n` failures since `from` are on record, or have led to a lock that holds up to `until`.
abbrev pub Guard : ℕ → ℕ → ℕ → ℕ → Entry → Type 0
Guard max from until n e =
    (n ≡ 0)
    ⊎ ((until ≤ e.locked_until)
        ⊎ ((n ≤ since from e.attempts)
            × (since from e.attempts < max)
            × EndsFrom from (back e.attempts)))

Guard-weaken :
    (max from until k n : ℕ) (e : Entry)
    → k ≤ n
    → Guard max from until n e
    → Guard max from until k e
Guard-weaken max from until k n e h (inl z) = inl (omega arith)
Guard-weaken max from until k n e h (inr (inl l)) = inr (inl l)
Guard-weaken max from until k n e h (inr (inr r)) = inr (inr (omega arith, r.1, r.2))

pub allow_entry-Guard :
    (max from until n m w now : ℕ) (e : Entry)
    → now ≤ from + seconds w
    → Guard max from until n e
    → Guard max from until n (allow_entry m w now e).0
unfolding allow_entry
allow_entry-Guard max from until n m w now e h (inl z) = inl z
allow_entry-Guard max from until n m w now e h (inr (inl l)) = ground arith
allow_entry-Guard max from until n m w now e h (inr (inr r)) = ground (
  arith,
  since-prune (now - seconds w) from e.attempts,
  prune-EndsFrom (now - seconds w) from e.attempts,
)

pub fail_entry-Guard :
    (from n max w l now : ℕ) (e : Entry)
    → from ≤ now
    → now ≤ from + seconds w
    → Guard max from (from + seconds l) n e
    → Guard max from (from + seconds l) (suc n) (fail_entry max w l now e)
unfolding fail_entry
fail_entry-Guard from n max w l now e lo hi g = elim (Bool-cases (leb max (length kept))) [
  | inl full ↦ rw full (inr (inl (omega arith)))
  | inr room ↦ rw room (keeps room g)
]
  where
    kept : List ℕ
    kept = prune (now - seconds w) (e.attempts ++ now ∷ [])

    counted : since from kept ≡ suc (since from e.attempts)
    counted =
        since-prune (now - seconds w) from (e.attempts ++ now ∷ []) (omega arith)
        ∙ since-push from now e.attempts lo

    recent :
        leb max (length kept) ≡ false
        → suc n ≤ since from kept
        → Guard max from (from + seconds l) (suc n) (record e { attempts = kept })
    recent room many = inr (
        inr (
          many,
          ground (arith, since-le-length from kept),
          prune-EndsFrom (now - seconds w) from (e.attempts ++ now ∷ []) (omega arith)
              (push-EndsFrom from now e.attempts lo),
        ))

    keeps :
        leb max (length kept) ≡ false
        → Guard max from (from + seconds l) n e
        → Guard max from (from + seconds l) (suc n) (record e { attempts = kept })
    keeps room (inr (inl locked)) = inr (inl locked)
    keeps room (inl z) = recent room (omega (arith, counted))
    keeps room (inr (inr r)) = recent room (omega (arith, counted, r.0))

pub not_idle_of_Guard :
    (max from until n now : ℕ) (e : Entry)
    → now < until
    → now ≤ from + seconds 86400
    → 0 < n
    → Guard max from until n e
    → is_idle now e ≡ false
unfolding is_idle
not_idle_of_Guard max from until n now e h k p (inl z) = absurd (omega arith)
not_idle_of_Guard max from until n now e h k p (inr (inl l)) = ground arith
not_idle_of_Guard max from until n now e h k p (inr (inr r)) = ground arith

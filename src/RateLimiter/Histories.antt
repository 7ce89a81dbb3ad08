-- ===== src/RateLimiter/Histories.antt =====
-- Histories of login calls over rate_limiter.h, seen from the entry of one key.
use vms_ai.Prelude.{
  ℕ, suc, ◌+◌, ◌≤◌, ◌≡◌, ◌≢◌, sym, subst, false, ◌⊎◌, inl, inr, List, [], ◌∷◌, if◌then◌else◌, arith,
  Bool-cases, Text, text_eq, text_beq, text_beq_iff, lookup-erase, erase, Distinct,
}
use vms_ai.RateLimiter.{
  RateLimiter, Entry, Call, checks, fails, succeeds, is_idle, evict_stale, entry_of, allow_entry,
  is_allowed, fail_entry, record_failure, record_success, ip_key, user_key, check_login,
  record_login_failure, record_login_success, step, run,
}
use vms_ai.RateLimiter.Entries.{
  entry_of-evict_stale, entry_of-put_entry, is_allowed-Distinct, step-Distinct,
}

-- A property of the entry of a key, indexed by a number of failures, that the calls at the time
-- `now` keep under the limits `m`, `w` and `l`.
pub record Tracks (P : ℕ → Entry → Type 0) (m w l now : ℕ) : Type 0 where
  pub allow : (n : ℕ) (e : Entry) → P n e → P n (allow_entry m w now e).0
  pub fail : (n : ℕ) (e : Entry) → P n e → P (suc n) (fail_entry m w l now e)
  pub busy : (n : ℕ) (e : Entry) → P n e → (is_idle now e ≡ false) ⊎ ((d : Entry) → P n d)

-- The limits with which the login calls use a key.
pub record Policy (key : Text) (m w l : ℕ) : Type 0 where
  pub of_ip : (ip : Text) → ip_key ip ≡ key → (m ≡ 5) × (w ≡ 60) × (l ≡ 300)
  pub of_user : (username : Text) → user_key username ≡ key → (m ≡ 10) × (w ≡ 300) × (l ≡ 900)

abbrev hit : Text → Text → ℕ
hit j key = if text_beq j key then 1 else 0

-- The failures that the calls record under the key.
abbrev pub failures : Text → List (ℕ × Call) → ℕ
failures key [] = 0
failures key ((_, fails ip username) ∷ cs) =
    (hit (ip_key ip) key + hit (user_key username) key) + failures key cs
failures key ((_, checks _ _) ∷ cs) = failures key cs
failures key ((_, succeeds _ _) ∷ cs) = failures key cs

-- No call erases the key.
abbrev pub NoSuccess : Text → List (ℕ × Call) → Type 0
NoSuccess key [] = Unit
NoSuccess key ((_, succeeds ip username) ∷ cs) =
    (ip_key ip ≢ key) × (user_key username ≢ key) × NoSuccess key cs
NoSuccess key ((_, fails _ _) ∷ cs) = NoSuccess key cs
NoSuccess key ((_, checks _ _) ∷ cs) = NoSuccess key cs

-- The calls take place from `lo` to `hi`, in any order.
abbrev pub Within : ℕ → ℕ → List (ℕ × Call) → Type 0
Within lo hi [] = Unit
Within lo hi ((t, _) ∷ cs) = (lo ≤ t) × (t ≤ hi) × Within lo hi cs

one_more : (n : ℕ) → suc n ≡ 1 + n
one_more n = omega arith

no_more : (n : ℕ) → n ≡ 0 + n
no_more n = omega arith

module _ (P : ℕ → Entry → Type 0) (key : Text) (m w l now : ℕ) (tracks : Tracks P m w l now) where
  evict_stale-Tracks :
      (n : ℕ) (s : RateLimiter)
      → Distinct s.entries
      → P n (entry_of key s)
      → P n (entry_of key (evict_stale now s))
  evict_stale-Tracks n s d h = elim (tracks.busy n (entry_of key s) h) [
    | inl busy ↦ rw (entry_of-evict_stale key now s d busy) h
    | inr any ↦ any (entry_of key (evict_stale now s))
  ]

  pub is_allowed-Tracks :
      (j : Text) (m' w' n : ℕ) (s : RateLimiter)
      → (j ≡ key → (m' ≡ m) × (w' ≡ w))
      → Distinct s.entries
      → P n (entry_of key s)
      → P n (entry_of key (is_allowed j m' w' now s).0)
  unfolding is_allowed
  is_allowed-Tracks j m' w' n s same d h =
      let kept : P n (entry_of key (evict_stale now s)) = evict_stale-Tracks n s d h in
      elim (Bool-cases (text_beq j key)) [
        | inl e ↦
            rw (entry_of-put_entry j key _ (evict_stale now s), e)
              (rw
                (
                  (same ((text_beq_iff j key).0 e)).0,
                  (same ((text_beq_iff j key).0 e)).1,
                  (text_beq_iff j key).0 e,
                )
                (tracks.allow n _ kept))
        | inr e ↦ rw (entry_of-put_entry j key _ (evict_stale now s), e) kept
      ]

  record_failure-Tracks :
      (j : Text) (m' w' l' n : ℕ) (s : RateLimiter)
      → (j ≡ key → (m' ≡ m) × (w' ≡ w) × (l' ≡ l))
      → P n (entry_of key s)
      → P (hit j key + n) (entry_of key (record_failure j m' w' l' now s))
  unfolding record_failure
  record_failure-Tracks j m' w' l' n s same h = elim (Bool-cases (text_beq j key)) [
    | inl e ↦
        rw (entry_of-put_entry j key _ s, e)
          (rw
            (
              (same ((text_beq_iff j key).0 e)).0,
              (same ((text_beq_iff j key).0 e)).1,
              (same ((text_beq_iff j key).0 e)).2,
              (text_beq_iff j key).0 e,
            )
            (subst (λ k. P k (fail_entry m w l now (entry_of key s))) (one_more n)
              (tracks.fail n (entry_of key s) h)))
    | inr e ↦ rw (entry_of-put_entry j key _ s, e) (subst (λ k. P k (entry_of key s)) (no_more n) h)
  ]

  -- A check, whatever it answers.
  check_login-Tracks :
      (ip username : Text) (n : ℕ) (s : RateLimiter)
      → Policy key m w l
      → Distinct s.entries
      → P n (entry_of key s)
      → P n (entry_of key (check_login ip username now s).0)
  unfolding check_login
  check_login-Tracks ip username n s pol d h =
      let s' : RateLimiter = (is_allowed (ip_key ip) 5 60 now s).0 in
      let h' : P n (entry_of key s') =
        is_allowed-Tracks (ip_key ip) 5 60 n s
          (λ e. (sym (pol.of_ip ip e).0, sym (pol.of_ip ip e).1)) d h in
      let h'' : P n (entry_of key (is_allowed (user_key username) 10 300 now s').0) =
        is_allowed-Tracks (user_key username) 10 300 n s'
          (λ e. (sym (pol.of_user username e).0, sym (pol.of_user username e).1))
          (is_allowed-Distinct (ip_key ip) 5 60 now s d) h' in
      elim (Bool-cases (is_allowed (ip_key ip) 5 60 now s).1) [
        | inr locked ↦ rw locked h'
        | inl ok ↦ elim (Bool-cases (is_allowed (user_key username) 10 300 now s').1) [
          | inl ok' ↦ rw (ok, ok') h''
          | inr locked ↦ rw (ok, locked) h''
        ]
      ]

  -- A call adds its failures under the key to the count.
  step-Tracks :
      (n : ℕ) (s : RateLimiter) (c : Call)
      → Policy key m w l
      → NoSuccess key ((now, c) ∷ [])
      → Distinct s.entries
      → P n (entry_of key s)
      → P (failures key ((now, c) ∷ []) + n) (entry_of key (step s (now, c)))
  unfolding step record_login_failure record_login_success record_success
  step-Tracks n s (checks ip username) pol quiet d h =
      subst (λ k. P k (entry_of key (check_login ip username now s).0)) (no_more n)
        (check_login-Tracks ip username n s pol d h)
  step-Tracks n s (fails ip username) pol quiet d h =
      subst (λ k. P k (entry_of key (record_login_failure ip username now s))) (omega arith)
        (record_failure-Tracks (user_key username) 10 300 900 (hit (ip_key ip) key + n) _
          (λ e. (
            sym (pol.of_user username e).0,
            sym (pol.of_user username e).1,
            sym (pol.of_user username e).2,
          ))
          (record_failure-Tracks (ip_key ip) 5 60 300 n s
            (λ e. (sym (pol.of_ip ip e).0, sym (pol.of_ip ip e).1, sym (pol.of_ip ip e).2)) h))
  step-Tracks n s (succeeds ip username) pol quiet d h =
      subst (λ k. P k (entry_of key (record_login_success ip username s))) (no_more n)
        (subst (P n) (sym kept) h)
    where
      kept : entry_of key (record_login_success ip username s) ≡ entry_of key s
      kept = ground (
        arith,
        lookup-erase (user_key username) key (erase (ip_key ip) s.entries),
        lookup-erase (ip_key ip) key s.entries,
        text_beq_iff (ip_key ip) key,
        text_beq_iff (user_key username) key,
      )

first :
    (key : Text) (t : ℕ) (c : Call) (cs : List (ℕ × Call))
    → NoSuccess key ((t, c) ∷ cs)
    → NoSuccess key ((t, c) ∷ [])
first key t (checks ip u) cs q = tt
first key t (fails ip u) cs q = tt
first key t (succeeds ip u) cs q = (q.0, q.1, tt)

others :
    (key : Text) (t : ℕ) (c : Call) (cs : List (ℕ × Call))
    → NoSuccess key ((t, c) ∷ cs)
    → NoSuccess key cs
others key t (checks ip u) cs q = q
others key t (fails ip u) cs q = q
others key t (succeeds ip u) cs q = q.2

sum :
    (key : Text) (t : ℕ) (c : Call) (cs : List (ℕ × Call)) (n : ℕ)
    → failures key cs + (failures key ((t, c) ∷ []) + n) ≡ failures key ((t, c) ∷ cs) + n
sum key t (checks ip u) cs n = omega arith
sum key t (fails ip u) cs n = omega arith
sum key t (succeeds ip u) cs n = omega arith

-- A whole history of calls, each at a time at which the property is kept.
pub run-Tracks :
    (P : ℕ → Entry → Type 0) (key : Text) (m w l lo hi : ℕ)
    → ((t : ℕ) → lo ≤ t → t ≤ hi → Tracks P m w l t)
    → Policy key m w l
    → (n : ℕ) (s : RateLimiter) (cs : List (ℕ × Call)) → Within lo hi cs
    → NoSuccess key cs
    → Distinct s.entries
    → P n (entry_of key s)
    → P (failures key cs + n) (entry_of key (run s cs)) × Distinct (run s cs).entries
unfolding run
run-Tracks P key m w l lo hi tracks pol n s [] inside quiet d h =
    (subst (λ k. P k (entry_of key s)) (no_more n) h, d)
run-Tracks P key m w l lo hi tracks pol n s ((t, c) ∷ cs) inside quiet d h =
    let one : P (failures key ((t, c) ∷ []) + n) (entry_of key (step s (t, c))) =
      step-Tracks P key m w l t (tracks t inside.0 inside.1) n s c pol (first key t c cs quiet) d
        h in
    let rest =
      run-Tracks P key m w l lo hi tracks pol (failures key ((t, c) ∷ []) + n) (step s (t, c)) cs
        inside.2 (others key t c cs quiet) (step-Distinct s (t, c) d) one in
    (subst (λ k. P k (entry_of key (run (step s (t, c)) cs))) (sum key t c cs n) rest.0, rest.1)

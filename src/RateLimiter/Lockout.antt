-- ===== src/RateLimiter/Lockout.antt =====
-- The lockout of rate_limiter.h over whole histories of login calls.
use vms_ai.Prelude.{
  ℕ, zero, suc, ◌+◌, ◌-◌, ◌≤◌, ◌<◌, ◌≡◌, refl, false, ◌⊎◌, inl, inr, List, arith, Bool-cases, Text,
  text_eq, Distinct,
}
use vms_ai.RateLimiter.{
  RateLimiter, Entry, Call, seconds, is_idle, entry_of, allow_entry, is_allowed, fail_entry, ip_key,
  user_key, ip_message, account_message, check_login, run,
}
use vms_ai.RateLimiter.Guard.{Guard, allow_entry-Guard, fail_entry-Guard, not_idle_of_Guard}
use vms_ai.RateLimiter.Entries.{is_allowed-Distinct, entry_of-evict_stale}
use vms_ai.RateLimiter.Histories.{
  Tracks, Policy, is_allowed-Tracks, failures, NoSuccess, Within, run-Tracks,
}

Guard-busy :
    (m from until now : ℕ)
    → now < until
    → now ≤ from + seconds 86400
    → (n : ℕ) (e : Entry) → Guard m from until n e
    → (is_idle now e ≡ false) ⊎ ((d : Entry) → Guard m from until n d)
Guard-busy m from until now h k zero e g = inr (λ d. inl refl)
Guard-busy m from until now h k (suc n) e g =
    inl (not_idle_of_Guard m from until (suc n) now e h k (omega arith) g)

Guard-Tracks :
    (m w l from now : ℕ)
    → w < l
    → w ≤ 86400
    → from ≤ now
    → now ≤ from + seconds w
    → Tracks (Guard m from (from + seconds l)) m w l now
Guard-Tracks m w l from now short day lo hi = record {
  allow = λ n e h. allow_entry-Guard m from (from + seconds l) n m w now e hi h;
  fail = λ n e h. fail_entry-Guard from n m w l now e lo hi h;
  busy = Guard-busy m from (from + seconds l) now (omega arith) (omega arith);
}

-- A lock that holds up to `until`, whatever the count.
abbrev Held : ℕ → ℕ → Entry → Type 0
Held until n e = until ≤ e.locked_until

Held-Tracks :
    (m w l from now : ℕ)
    → from ≤ now
    → now < from + seconds l
    → Tracks (Held (from + seconds l)) m w l now
unfolding allow_entry fail_entry is_idle
Held-Tracks m w l from now lo hi = record {
  allow = λ n e h. ground arith;
  fail = λ n e h. ground arith;
  busy = λ n e h. inl (ground arith);
}

Guard-full :
    (m from until : ℕ) (n : ℕ) (e : Entry)
    → 0 < m
    → m ≤ n
    → Guard m from until n e
    → until ≤ e.locked_until
Guard-full m from until n e p h (inl z) = absurd (omega arith)
Guard-full m from until n e p h (inr (inl l)) = l
Guard-full m from until n e p h (inr (inr r)) = absurd (omega (arith, r.0, r.1))

module _ (key : Text) (m w l from : ℕ) (pol : Policy key m w l) where
  -- As many failures as the limit, within one window, lock the key for the whole lockout.
  locked_after :
      (s : RateLimiter) (cs ds : List (ℕ × Call))
      → 0 < m
      → w < l
      → w ≤ 86400
      → Distinct s.entries
      → Within from (from + seconds w) cs
      → NoSuccess key cs
      → m ≤ failures key cs
      → Within from (from + seconds l - 1) ds
      → NoSuccess key ds
      → (from + seconds l ≤ (entry_of key (run (run s cs) ds)).locked_until)
        × Distinct (run (run s cs) ds).entries
  locked_after s cs ds some_limit short day d in_window quiet enough in_lockout quiet' =
      let counted : Guard m from (from + seconds l) (failures key cs + 0) (entry_of key (run s cs))
          × Distinct (run s cs).entries =
        run-Tracks (Guard m from (from + seconds l)) key m w l from (from + seconds w)
          (λ t lo hi. Guard-Tracks m w l from t short day lo hi) pol 0 s cs in_window quiet d
          (inl refl) in
      run-Tracks (Held (from + seconds l)) key m w l from (from + seconds l - 1)
        (λ t lo hi. Held-Tracks m w l from t lo (omega arith)) pol 0 (run s cs) ds in_lockout quiet'
        counted.1
        (Guard-full m from (from + seconds l) (failures key cs + 0) _ some_limit (omega arith)
          counted.0)

is_allowed-locked :
    (key : Text) (m w now : ℕ) (s : RateLimiter)
    → Distinct s.entries
    → now < (entry_of key s).locked_until
    → (is_allowed key m w now s).1 ≡ false
unfolding is_allowed allow_entry is_idle
is_allowed-locked key m w now s d h =
    ground (arith, entry_of-evict_stale key now s d (unfold is_idle in ground arith))

ip-Policy : (ip : Text) → Policy (ip_key ip) 5 60 300
ip-Policy ip = record {
  of_ip = λ other e. (refl, refl, refl);
  of_user = λ username e. absurd (ground arith);
}

user-Policy : (username : Text) → Policy (user_key username) 10 300 900
user-Policy username = record {
  of_ip = λ ip e. absurd (ground arith);
  of_user = λ other e. (refl, refl, refl);
}

-- Five failures from one address within 60 seconds, mixed with any other calls but a successful
-- login from it, lock the address: every check from it is refused with the address's message until
-- 300 seconds after the start of those 60, whatever calls come in between, as long as none of them
-- is a successful login from the address.
pub five_failures_lock_ip :
    (ip username : Text) (from now : ℕ) (s : RateLimiter) (cs ds : List (ℕ × Call))
    → Distinct s.entries
    → Within from (from + seconds 60) cs
    → NoSuccess (ip_key ip) cs
    → 5 ≤ failures (ip_key ip) cs
    → Within from (from + seconds 300 - 1) ds
    → NoSuccess (ip_key ip) ds
    → now < from + seconds 300
    → (check_login ip username now (run (run s cs) ds)).1 ≡ ip_message
unfolding check_login
five_failures_lock_ip ip username from now s cs ds d in_window quiet enough in_lockout quiet' soon =
    let locked =
      locked_after (ip_key ip) 5 60 300 from (ip-Policy ip) s cs ds (omega arith) (omega arith)
        (omega arith) d in_window quiet enough in_lockout quiet' in
    rw (
      is_allowed-locked (ip_key ip) 5 60 now (run (run s cs) ds) locked.1 (omega (arith, locked.0)))

-- Ten failures for one account within 300 seconds, mixed with any other calls but a successful
-- login to it, lock the account: until 900 seconds after the start of those 300 every check for it
-- is refused, from any address, whatever calls come in between, as long as none of them is a
-- successful login to the account.
pub ten_failures_lock_account :
    (ip username : Text) (from now : ℕ) (s : RateLimiter) (cs ds : List (ℕ × Call))
    → Distinct s.entries
    → Within from (from + seconds 300) cs
    → NoSuccess (user_key username) cs
    → 10 ≤ failures (user_key username) cs
    → Within from (from + seconds 900 - 1) ds
    → NoSuccess (user_key username) ds
    → from ≤ now
    → now < from + seconds 900
    → ((check_login ip username now (run (run s cs) ds)).1 ≡ ip_message)
      ⊎ ((check_login ip username now (run (run s cs) ds)).1 ≡ account_message)
unfolding check_login
ten_failures_lock_account ip username from now s cs ds d in_window quiet enough in_lockout quiet' lo
      soon =
    let t : RateLimiter = run (run s cs) ds in
    let locked =
      locked_after (user_key username) 10 300 900 from (user-Policy username) s cs ds (omega arith)
        (omega arith) (omega arith) d in_window quiet enough in_lockout quiet' in
    let still : from + seconds 900
        ≤ (entry_of (user_key username) (is_allowed (ip_key ip) 5 60 now t).0).locked_until =
      is_allowed-Tracks (Held (from + seconds 900)) (user_key username) 10 300 900 now
        (Held-Tracks 10 300 900 from now lo soon) (ip_key ip) 5 60 0 t (λ e. absurd (ground arith))
        locked.1 locked.0 in
    let refused : (is_allowed (user_key username) 10 300 now
          (is_allowed (ip_key ip) 5 60 now t).0).1
        ≡ false =
      is_allowed-locked (user_key username) 10 300 now (is_allowed (ip_key ip) 5 60 now t).0
        (is_allowed-Distinct (ip_key ip) 5 60 now t locked.1) (omega (arith, still)) in
    elim (Bool-cases (is_allowed (ip_key ip) 5 60 now t).1) [
      | inl ok ↦ inr (rw (ok, refused))
      | inr throttled ↦ inl (rw throttled)
    ]

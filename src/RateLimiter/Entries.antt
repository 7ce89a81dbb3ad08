-- ===== src/RateLimiter/Entries.antt =====
-- The map of rate_limiter.h: what a write or the clean-up does to the entries, one to a key.
use vms_ai.Prelude.{
  ℕ, ◌≡◌, false, not, if◌then◌else◌, arith, Text, text_eq, text_beq, lookup-insert, lookup-retain,
  Distinct, insert-Distinct, erase-Distinct, retain-Distinct,
}
use vms_ai.RateLimiter.{
  RateLimiter, Entry, Call, checks, fails, succeeds, is_idle, evict_stale, entry_of, put_entry,
  is_allowed, record_failure, record_success, ip_key, user_key, check_login, record_login_failure,
  record_login_success, step,
}

-- Eviction passes over an entry that is not idle.
pub entry_of-evict_stale :
    (key : Text) (now : ℕ) (s : RateLimiter)
    → Distinct s.entries
    → is_idle now (entry_of key s) ≡ false
    → entry_of key (evict_stale now s) ≡ entry_of key s
unfolding evict_stale
entry_of-evict_stale key now s d h =
    ground (arith, lookup-retain (λ e. not (is_idle now e)) key s.entries d)

pub evict_stale-Distinct :
    (now : ℕ) (s : RateLimiter) → Distinct s.entries → Distinct (evict_stale now s).entries
unfolding evict_stale
evict_stale-Distinct now s d =
    ground (arith, retain-Distinct (λ e. not (is_idle now e)) s.entries d)

pub entry_of-put_entry :
    (j key : Text) (e : Entry) (s : RateLimiter)
    → entry_of key (put_entry j e s) ≡ (if text_beq j key then e else entry_of key s)
entry_of-put_entry j key e s = ground (arith, lookup-insert j key e s.entries)

pub put_entry-Distinct :
    (j : Text) (e : Entry) (s : RateLimiter)
    → Distinct s.entries
    → Distinct (put_entry j e s).entries
put_entry-Distinct j e s d = insert-Distinct j e s.entries d

pub is_allowed-Distinct :
    (j : Text) (m w now : ℕ) (s : RateLimiter)
    → Distinct s.entries
    → Distinct (is_allowed j m w now s).0.entries
unfolding is_allowed
is_allowed-Distinct j m w now s d =
    put_entry-Distinct j _ (evict_stale now s) (evict_stale-Distinct now s d)

-- The calls keep one entry to a key.
pub step-Distinct :
    (s : RateLimiter) (c : ℕ × Call) → Distinct s.entries → Distinct (step s c).entries
unfolding step check_login record_login_failure record_failure record_login_success record_success
step-Distinct s (now, checks ip username) d =
    let d' : Distinct (is_allowed (ip_key ip) 5 60 now s).0.entries =
      is_allowed-Distinct (ip_key ip) 5 60 now s d in
    let d'' : Distinct
        (is_allowed (user_key username) 10 300 now
          (is_allowed (ip_key ip) 5 60 now s).0).0.entries =
      is_allowed-Distinct (user_key username) 10 300 now _ d' in
    ground arith
step-Distinct s (now, fails ip username) d =
    put_entry-Distinct (user_key username) _ (record_failure (ip_key ip) 5 60 300 now s)
      (put_entry-Distinct (ip_key ip) _ s d)
step-Distinct s (now, succeeds ip username) d =
    erase-Distinct (user_key username) _ (erase-Distinct (ip_key ip) s.entries d)

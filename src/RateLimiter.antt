-- ===== src/RateLimiter.antt =====
-- cpp-backend/include/utils/rate_limiter.h: the sliding-window limiter that protects the login endpoint.
--
-- A steady_clock::time_point is the number of nanoseconds since the clock's epoch; each call takes
-- the value that the clock returns in it. The counts and durations, `int` in the source, are the
-- non-negative constants of the login calls, so `now - window` may stop at 0: a time point is
-- below the stopped difference exactly when it is below the signed one. Keys and messages are the
-- bytes of the std::string. The mutex makes a call one step.
pub mod Window
pub mod Guard
pub mod Entries
pub mod Histories
pub mod Lockout
mod Tests
pub mod Eviction
use vms_ai.Prelude.{
  ℕ, ◌+◌, ◌-◌, ◌*◌, Bool, true, false, not, ◌&&◌, Option, none, some, List, [], ◌∷◌, ◌++◌, ltb, leb,
  if◌then◌else◌, length, Map, Text, bytes, lookup, insert, erase, retain, text_eq,
}

abbrev pub seconds : ℕ → ℕ
seconds n = n * 1_000_000_000

-- struct Entry
pub record Entry : Type 0 where
  pub attempts : List ℕ
  pub locked_until : ℕ

abbrev pub new_entry : Entry
new_entry = record { attempts = []; locked_until = 0 }

pub record RateLimiter : Type 0 where
  pub entries : Map Text Entry
  pub last_eviction : ℕ

-- while (!attempts.empty() && attempts.front() < cutoff) attempts.pop_front();
unfoldable pub prune : ℕ → List ℕ → List ℕ
prune cutoff [] = []
prune cutoff (t ∷ ts) = let rest = prune cutoff ts in if ltb t cutoff then rest else t ∷ ts

-- attempts.back()
abbrev pub back : List ℕ → Option ℕ
back [] = none
back (t ∷ []) = some t
back (t ∷ u ∷ ts) = back (u ∷ ts)

abbrev pub older : ℕ → Option ℕ → Bool
older cutoff none = true
older cutoff (some t) = ltb t cutoff

unfoldable pub is_idle : ℕ → Entry → Bool
is_idle now e = ltb e.locked_until now && older (now - seconds 86400) (back e.attempts)

unfoldable pub evict_stale : ℕ → RateLimiter → RateLimiter
evict_stale now s =
    if ltb (now - s.last_eviction) (seconds 600) && ltb (length s.entries) 1000
    then s
    else record { entries = retain (λ e. not (is_idle now e)) s.entries; last_eviction = now }

abbrev pub or_new : Option Entry → Entry
or_new none = new_entry
or_new (some e) = e

-- entries_[key], which makes a missing entry
abbrev pub entry_of : Text → RateLimiter → Entry
entry_of key s = or_new (lookup key s.entries)

abbrev pub put_entry : Text → Entry → RateLimiter → RateLimiter
put_entry key e s = record s { entries = insert key e s.entries }

-- The part of isAllowed behind evictStale, on the entry.
unfoldable pub allow_entry : ℕ → ℕ → ℕ → Entry → Entry × Bool
allow_entry max_failures window now e =
    if ltb now e.locked_until
    then (e, false)
    else (let attempts = prune (now - seconds window) e.attempts in
        (record e { attempts = attempts }, ltb (length attempts) max_failures))

unfoldable pub is_allowed : Text → ℕ → ℕ → ℕ → RateLimiter → RateLimiter × Bool
is_allowed key max_failures window now s =
    let s' = evict_stale now s in
    let (e, ok) = allow_entry max_failures window now (entry_of key s') in (put_entry key e s', ok)

-- recordFailure, on the entry.
unfoldable pub fail_entry : ℕ → ℕ → ℕ → ℕ → Entry → Entry
fail_entry max_failures window lockout now e =
    let attempts = prune (now - seconds window) (e.attempts ++ now ∷ []) in
    if leb max_failures (length attempts)
    then record { attempts = []; locked_until = now + seconds lockout }
    else record e { attempts = attempts }

unfoldable pub record_failure : Text → ℕ → ℕ → ℕ → ℕ → RateLimiter → RateLimiter
record_failure key max_failures window lockout now s =
    put_entry key (fail_entry max_failures window lockout now (entry_of key s)) s

unfoldable pub record_success : Text → RateLimiter → RateLimiter
record_success key s = record s { entries = erase key s.entries }

-- "ip:" + ip, "user:" + username
abbrev pub ip_key : Text → Text
ip_key ip = bytes "ip:" ++ ip

abbrev pub user_key : Text → Text
user_key username = bytes "user:" ++ username

abbrev pub ip_message : Text
ip_message = bytes "Too many login attempts from your IP. Please wait 5 minutes."

abbrev pub account_message : Text
account_message = bytes "Too many failed attempts for this account. Please wait 15 minutes."

unfoldable pub check_login : Text → Text → ℕ → RateLimiter → RateLimiter × Text
check_login ip username now s =
    let (s', ip_ok) = is_allowed (ip_key ip) 5 60 now s in
    let (s'', user_ok) = is_allowed (user_key username) 10 300 now s' in
    if not ip_ok
    then (s', ip_message)
    else if not user_ok
    then (s'', account_message)
    else (s'', [])

unfoldable pub record_login_failure : Text → Text → ℕ → RateLimiter → RateLimiter
record_login_failure ip username now s =
    record_failure (user_key username) 10 300 900 now (record_failure (ip_key ip) 5 60 300 now s)

unfoldable pub record_login_success : Text → Text → RateLimiter → RateLimiter
record_login_success ip username s =
    record_success (user_key username) (record_success (ip_key ip) s)

unfoldable pub get_tracked_entries_count : RateLimiter → ℕ
get_tracked_entries_count s = length s.entries

abbrev pub new : RateLimiter
new = record { entries = []; last_eviction = 0 }

-- The calls of the login endpoint.
pub data Call : Type 0 where
  checks fails succeeds : Text → Text → Call

unfoldable pub step : RateLimiter → ℕ × Call → RateLimiter
step s (now, checks ip username) = (check_login ip username now s).0
step s (now, fails ip username) = record_login_failure ip username now s
step s (now, succeeds ip username) = record_login_success ip username s

unfoldable pub run : RateLimiter → List (ℕ × Call) → RateLimiter
run s [] = s
run s (c ∷ cs) = run (step s c) cs

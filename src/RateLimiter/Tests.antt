-- ===== src/RateLimiter/Tests.antt =====
-- Runs of rate_limiter.h, and its theorems at concrete calls.
use vms_ai.Prelude.{ℕ, bytes, ◌≡◌, ◌⊎◌, refl, List, [], ◌∷◌, arith, Text, lookup, insert, ◌++◌}
use vms_ai.RateLimiter.{
  Call, checks, fails, new, seconds, run, check_login, ip_message, account_message, is_allowed,
  allow_entry, prune, evict_stale, step, record_login_failure, record_failure, fail_entry, is_idle,
}
use vms_ai.RateLimiter.Lockout.{ten_failures_lock_account}

abbrev ann : Text
ann = bytes "ann"

abbrev home : Text
home = bytes "10.0.0.7"

abbrev guesses : List (ℕ × Call)
guesses =
    (seconds 100, fails home ann)
    ∷ (seconds 101, fails home ann)
    ∷ (seconds 102, checks home ann)
    ∷ (seconds 103, fails home ann)
    ∷ (seconds 104, fails home ann)
    ∷ (seconds 105, fails home ann)
    ∷ []

abbrev later : List (ℕ × Call)
later = (seconds 200, fails home ann) ∷ []

ten_failures_lock_account_example :
    ((check_login home ann (seconds 999) (run (run new (guesses ++ guesses)) later)).1 ≡ ip_message)
    ⊎ ((check_login home ann (seconds 999) (run (run new (guesses ++ guesses)) later)).1
        ≡ account_message)
ten_failures_lock_account_example =
    ten_failures_lock_account home ann (seconds 100) (seconds 999) new (guesses ++ guesses) later tt
      (omega arith) tt (omega arith) (omega arith) tt (omega arith) (omega arith)

-- The sixth attempt is refused, and the wait is over after 300 seconds.
sixth_attempt :
    ((check_login home ann (seconds 106) (run new guesses)).1 ≡ ip_message)
    × ((check_login home ann (seconds 406) (run new guesses)).1 ≡ [])
unfolding check_login run is_allowed allow_entry evict_stale step record_login_failure
    record_failure fail_entry prune lookup insert is_idle
sixth_attempt = (refl, refl)

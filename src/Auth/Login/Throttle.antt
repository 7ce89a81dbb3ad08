-- ===== src/Auth/Login/Throttle.antt =====
-- The limiter under a history of logins.
use vms_ai.Prelude.{
  ℕ, ◌+◌, ◌-◌, ◌≤◌, ◌<◌, ◌≡◌, refl, ap, subst, ◌∙◌, true, none, List, [], ◌∷◌, Text, text_eq,
  text_beq, Distinct, arith,
}
use vms_ai.RateLimiter.{RateLimiter, run, seconds, ip_key, ip_message, check_login}
use vms_ai.RateLimiter.Lockout.{five_failures_lock_ip}
use vms_ai.Auth.Login.{
  Desk, LoginReply, Write, refused, malformed, checked_login, well_formed_login, login,
}
use vms_ai.Auth.Login.Traces.{Trace, Trace-append, is_rejected, wrong_of, well_formed_login-Trace}

-- A request to log in, and what it finds.
pub record Attempt : Type 0 where
  pub desk : Desk
  pub ip : Text
  pub username : Text
  pub password : Text

abbrev pub tried : Attempt → RateLimiter → RateLimiter × List Write × LoginReply
tried a s = login a.desk a.ip a.username a.password s

-- The limiter after the attempts, one after the other.
unfoldable pub left_by : List Attempt → RateLimiter → RateLimiter
left_by [] s = s
left_by (a ∷ more) s = left_by more (tried a s).0

-- How many attempts from the address are told that their credentials are wrong.
unfoldable pub wrong : Text → List Attempt → RateLimiter → ℕ
wrong k [] s = 0
wrong k (a ∷ more) s = wrong_of a.ip k (tried a s).2 + wrong k more (tried a s).0

-- No attempt from the address is let in.
unfoldable pub AreRejected : Text → List Attempt → RateLimiter → Type 0
AreRejected k [] s = Unit
AreRejected k (a ∷ more) s =
    (text_beq a.ip k ≡ true → is_rejected (tried a s).2 ≡ true) × AreRejected k more (tried a s).0

-- The attempts take place from lo to hi, in any order.
unfoldable pub AreWithin : ℕ → ℕ → List Attempt → Type 0
AreWithin lo hi [] = Unit
AreWithin lo hi (a ∷ more) = (lo ≤ a.desk.clock) × (a.desk.clock ≤ hi) × AreWithin lo hi more

history-Trace :
    (lo hi : ℕ) (k : Text) (tries : List Attempt) (s : RateLimiter)
    → AreWithin lo hi tries
    → AreRejected k tries s
    → Trace lo hi (ip_key k) s (left_by tries s) (wrong k tries s)
unfolding left_by wrong AreRejected AreWithin run login
history-Trace lo hi k [] s w r = record {
  calls = [];
  ends = refl;
  within = tt;
  quiet = tt;
  enough = omega arith;
}
history-Trace lo hi k (a ∷ more) s (late, early, w) (r, rest) =
    Trace-append
      (well_formed_login-Trace lo hi k a.desk late early a.ip a.username a.password s
        (malformed a.username a.password) r)
      (history-Trace lo hi k more (tried a s).0 w rest)

refused_login :
    (d : Desk) (ip username password : Text) (r : RateLimiter × Text) (c : ℕ) (message : Text)
    → r.1 ≡ c ∷ message
    → (checked_login d ip username password r).2 ≡ refused 429 (c ∷ message)
unfolding checked_login
refused_login d ip username password (s, m) c message e = rw e refl

well_formed-locked :
    (d : Desk) (ip username password : Text) (s : RateLimiter)
    → malformed username password ≡ none
    → (check_login ip username d.clock s).1 ≡ ip_message
    → (login d ip username password s).2 ≡ refused 429 ip_message
unfolding login well_formed_login
well_formed-locked d ip username password s form locked =
    rw form (refused_login d ip username password (check_login ip username d.clock s) _ _ locked)

-- Five logins from an address that are told that their credentials are wrong, all attempts within 60 seconds
-- and mixed with any from elsewhere, lock the address: until 300 seconds after the start of those 60
-- every well-formed login from it, also with the right password, is refused with status 429, whatever is
-- attempted in between. In both stretches no attempt from the address is let in. The limiter has at
-- most one entry for a key to begin with.
pub five_wrong_logins_lock_ip :
    (d : Desk) (ip username password : Text) (from : ℕ) (s : RateLimiter)
    (tries more : List Attempt)
    → Distinct s.entries
    → AreWithin from (from + seconds 60) tries
    → AreRejected ip tries s
    → 5 ≤ wrong ip tries s
    → AreWithin from (from + seconds 300 - 1) more
    → AreRejected ip more (left_by tries s)
    → d.clock < from + seconds 300
    → malformed username password ≡ none
    → (login d ip username password (left_by more (left_by tries s))).2 ≡ refused 429 ip_message
five_wrong_logins_lock_ip d ip username password from s tries more distinct w r enough w' r' soon
      form =
    let a = history-Trace from (from + seconds 60) ip tries s w r in
    let b = history-Trace from (from + seconds 300 - 1) ip more (left_by tries s) w' r' in
    well_formed-locked d ip username password (left_by more (left_by tries s)) form (
      subst (λ t. (check_login ip username d.clock t).1 ≡ ip_message)
        (ap (λ t. run t b.calls) a.ends ∙ b.ends)
        (five_failures_lock_ip ip username from d.clock s a.calls b.calls distinct a.within a.quiet
          (omega (arith, a.enough, enough)) b.within b.quiet soon))

-- ===== src/Auth/Login/Traces.antt =====
-- A login, as calls of the limiter.
use vms_ai.Prelude.{
  ℕ, ◌+◌, ◌≤◌, ◌==◌, ◌≡◌, ◌≢◌, refl, sym, ap, subst, ◌∙◌, inl, inr, Bool, true, false, ◌&&◌,
  Bool-cases, Option, none, some, List, [], ◌∷◌, ◌++◌, if◌then◌else◌, Text, text_eq, text_beq,
  text_beq_iff, arith,
}
use vms_ai.RateLimiter.{
  RateLimiter, Call, checks, fails, succeeds, step, run, ip_key, user_key, check_login,
  record_login_success, record_login_failure,
}
use vms_ai.RateLimiter.Histories.{failures, NoSuccess, Within}
use vms_ai.Auth.Users.{User}
use vms_ai.Auth.Login.{
  Desk, LoginReply, Write, refused, failed, reply_to, local_reply, must_change_password,
  local_match, ldap_match, ldap_reply, with_match, checked_login, well_formed_login,
}

-- A history of calls of the limiter from one state to another, without a success of the key and with at
-- least so many failures.
pub record Trace (lo hi : ℕ) (key : Text) (s t : RateLimiter) (n : ℕ) : Type 0 where
  pub calls : List (ℕ × Call)
  pub ends : run s calls ≡ t
  pub within : Within lo hi calls
  pub quiet : NoSuccess key calls
  pub enough : n ≤ failures key calls

run-append : (s : RateLimiter) (cs ds : List (ℕ × Call)) → run s (cs ++ ds) ≡ run (run s cs) ds
unfolding run
run-append s [] ds = refl
run-append s (c ∷ cs) ds = run-append (step s c) cs ds

Within-append :
    (lo hi : ℕ) (cs ds : List (ℕ × Call))
    → Within lo hi cs
    → Within lo hi ds
    → Within lo hi (cs ++ ds)
Within-append lo hi [] ds v w = w
Within-append lo hi ((t, c) ∷ cs) ds (a, b, v) w = (a, b, Within-append lo hi cs ds v w)

NoSuccess-append :
    (key : Text) (cs ds : List (ℕ × Call))
    → NoSuccess key cs
    → NoSuccess key ds
    → NoSuccess key (cs ++ ds)
NoSuccess-append key [] ds v w = w
NoSuccess-append key ((t, checks ip u) ∷ cs) ds v w = NoSuccess-append key cs ds v w
NoSuccess-append key ((t, fails ip u) ∷ cs) ds v w = NoSuccess-append key cs ds v w
NoSuccess-append key ((t, succeeds ip u) ∷ cs) ds (a, b, v) w =
    (a, b, NoSuccess-append key cs ds v w)

failures-append :
    (key : Text) (cs ds : List (ℕ × Call))
    → failures key (cs ++ ds) ≡ failures key cs + failures key ds
failures-append key [] ds = omega arith
failures-append key ((t, checks ip u) ∷ cs) ds = failures-append key cs ds
failures-append key ((t, fails ip u) ∷ cs) ds = omega (arith, failures-append key cs ds)
failures-append key ((t, succeeds ip u) ∷ cs) ds = failures-append key cs ds

pub Trace-append :
    {lo hi : ℕ} {key : Text} {s t u : RateLimiter} {n m : ℕ}
    → Trace lo hi key s t n
    → Trace lo hi key t u m
    → Trace lo hi key s u (n + m)
Trace-append {lo = lo} {hi = hi} {key = key} {s = s} a b = record {
  calls = a.calls ++ b.calls;
  ends = run-append s a.calls b.calls ∙ ap (λ t. run t b.calls) a.ends ∙ b.ends;
  within = Within-append lo hi a.calls b.calls a.within b.within;
  quiet = NoSuccess-append key a.calls b.calls a.quiet b.quiet;
  enough = omega (arith, a.enough, b.enough, failures-append key a.calls b.calls);
}

-- The request is turned away, and the credentials are what is wrong.
abbrev pub is_rejected : LoginReply → Bool
is_rejected (refused _ _) = true
is_rejected failed = true
is_rejected _ = false

abbrev pub is_wrong : LoginReply → Bool
is_wrong (refused status _) = status == 401
is_wrong _ = false

reply_to_accepted :
    (d : Desk) (user : User) (writes : List Write) (two_factor must_change : Bool)
    → (is_rejected (reply_to d user writes two_factor must_change).1 ≡ false)
      × (is_wrong (reply_to d user writes two_factor must_change).1 ≡ false)
unfolding reply_to
reply_to_accepted d user writes true must_change = (refl, refl)
reply_to_accepted d user writes false true = (refl, refl)
reply_to_accepted d user writes false false = (refl, refl)

abbrev pub wrong_of : Text → Text → LoginReply → ℕ
wrong_of ip k reply = if text_beq ip k && is_wrong reply then 1 else 0

ip_key_ne : (ip k : Text) → text_beq ip k ≡ false → ip_key ip ≢ ip_key k
ip_key_ne ip k b e =
    let same : text_beq ip k ≡ true = (text_beq_iff (ip_key ip) (ip_key k)).1 e in cc

user_key_ne : (username k : Text) → user_key username ≢ ip_key k
user_key_ne username k e =
    let same : false ≡ true = (text_beq_iff (user_key username) (ip_key k)).1 e in cc

module _ (lo hi : ℕ) (k : Text) (d : Desk) (late : lo ≤ d.clock) (early : d.clock ≤ hi)
    (ip username : Text) where
  succeeds-Trace :
      (s : RateLimiter)
      → text_beq ip k ≡ false
      → Trace lo hi (ip_key k) s (record_login_success ip username s) 0
  unfolding run step
  succeeds-Trace s b = record {
    calls = (d.clock, succeeds ip username) ∷ [];
    ends = refl;
    within = (late, early, tt);
    quiet = (ip_key_ne ip k b, user_key_ne username k, tt);
    enough = omega arith;
  }

  fails-Trace :
      (s : RateLimiter)
      → Trace lo hi
          (ip_key k)
          s
          (record_login_failure ip username d.clock s)
          (if text_beq ip k && true then 1 else 0)
  unfolding run step
  fails-Trace s = record {
    calls = (d.clock, fails ip username) ∷ [];
    ends = refl;
    within = (late, early, tt);
    quiet = tt;
    enough = ground arith;
  }

  checks-Trace :
      (s : RateLimiter) → Trace lo hi (ip_key k) s (check_login ip username d.clock s).0 0
  unfolding run step
  checks-Trace s = record {
    calls = (d.clock, checks ip username) ∷ [];
    ends = refl;
    within = (late, early, tt);
    quiet = tt;
    enough = omega arith;
  }

  idle-Trace : (s : RateLimiter) → Trace lo hi (ip_key k) s s 0
  unfolding run
  idle-Trace s = record { calls = []; ends = refl; within = tt; quiet = tt; enough = omega arith }

  ldap_reply-Trace :
      (s : RateLimiter) (found : Option User × List Write)
      → (text_beq ip k ≡ true → is_rejected (ldap_reply d ip username s found).2 ≡ true)
      → Trace lo hi
          (ip_key k)
          s
          (ldap_reply d ip username s found).0
          (wrong_of ip k (ldap_reply d ip username s found).2)
  unfolding ldap_reply
  ldap_reply-Trace s (none, writes) h = fails-Trace s
  ldap_reply-Trace s (some user, writes) h = elim (Bool-cases (text_beq ip k)) [
    | inl b ↦ let bad = h b in cc
    | inr b ↦ rw b (succeeds-Trace s b)
  ]

  with_match-Trace :
      (password : Text) (s : RateLimiter) (m : Option (User × List Write))
      → (text_beq ip k ≡ true → is_rejected (with_match d ip username password s m).2 ≡ true)
      → Trace lo hi
          (ip_key k)
          s
          (with_match d ip username password s m).0
          (wrong_of ip k (with_match d ip username password s m).2)
  unfolding with_match local_reply
  with_match-Trace password s none h =
      ldap_reply-Trace s (ldap_match d d.ldap username password (d.by_username username)) h
  with_match-Trace password s (some (user, writes)) h =
      let (accepted, right) =
        reply_to_accepted d user writes user.two_factor_enabled (must_change_password d user) in
      elim (Bool-cases (text_beq ip k)) [
        | inl b ↦ let bad = sym accepted ∙ h b in cc
        | inr b ↦ rw b (succeeds-Trace s b)
      ]

  checked_login-Trace :
      (password : Text) (r : RateLimiter × Text)
      → (text_beq ip k ≡ true → is_rejected (checked_login d ip username password r).2 ≡ true)
      → Trace lo hi
          (ip_key k)
          r.0
          (checked_login d ip username password r).0
          (wrong_of ip k (checked_login d ip username password r).2)
  unfolding checked_login
  checked_login-Trace password (s, []) h =
      with_match-Trace password s (local_match d password (d.by_username username)) h
  checked_login-Trace password (s, c ∷ message) h = elim (Bool-cases (text_beq ip k)) [
    | inl b ↦ rw b (idle-Trace s)
    | inr b ↦ rw b (idle-Trace s)
  ]

  pub well_formed_login-Trace :
      (password : Text) (s : RateLimiter) (m : Option Text)
      → (text_beq ip k ≡ true → is_rejected (well_formed_login d ip username password s m).2 ≡ true)
      → Trace lo hi
          (ip_key k)
          s
          (well_formed_login d ip username password s m).0
          (wrong_of ip k (well_formed_login d ip username password s m).2)
  unfolding well_formed_login
  well_formed_login-Trace password s (some message) h = elim (Bool-cases (text_beq ip k)) [
    | inl b ↦ rw b (idle-Trace s)
    | inr b ↦ rw b (idle-Trace s)
  ]
  well_formed_login-Trace password s none h =
      subst
        (Trace lo hi (ip_key k) s
          (checked_login d ip username password (check_login ip username d.clock s)).0)
        (omega arith)
        (Trace-append (checks-Trace s)
          (checked_login-Trace password (check_login ip username d.clock s) h))

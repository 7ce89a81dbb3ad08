-- ===== src/Auth/Login/Tests.antt =====
-- The handlers of the login, and their theorems at concrete requests.
use vms_ai.Prelude.{
  ℕ, ◌+ℤ◌, ◌*ℤ◌, ◌≡◌, refl, ap, sym, ◌∙◌, length, pos, Bool, true, false, Option, none, some, List,
  [], ◌∷◌, Text, bytes, lookup, insert, text_eq, arith,
}
use vms_ai.RateLimiter
use vms_ai.RateLimiter.{RateLimiter, new, seconds, ip_message}
use vms_ai.Auth.Numbers.{◌>>◌, some_injective, guard, occurrences, split_at_first}
use vms_ai.Auth.Users.{User, blank_user, AuthConfig, UserTable}
use vms_ai.Auth.Jwt.{JwtLibrary, Claims, decode_ws_ticket_jwt}
use vms_ai.Auth.Validate.{validate_token}
use vms_ai.Auth.Issue.{
  with_profile, with_ip, built, sign_user_token, create_access_token_jwt, create_ws_ticket_jwt,
  generate_jti, hex_draws,
}
use vms_ai.Auth.Issue.Addresses.{lets_in}
use vms_ai.Auth.Issue.Readings.{ReadsBack, HasInts}
use vms_ai.Auth.Issue.RoundTrip.{
  session, validate_token-create_access_token_jwt, decode_ws_ticket_jwt-create_ws_ticket_jwt,
}
use vms_ai.Auth.Passwords.{
  Argon2, verify_user_password, hash_password_with_salt, hash_password_argon2,
}
use vms_ai.Auth.Passwords.RoundTrip.{IsSalt, verify_user_password-hash_password_with_salt}
use vms_ai.Auth.Login.{
  Desk, refused, logged_in, access_token, login, malformed, is_safe_credential, no_control,
  well_formed_login, checked_login, with_match, local_match, ldap_match, ldap_user, ldap_reply,
}
use vms_ai.Auth.Login.Shows.{logs_in, answer, Shows}
use vms_ai.Auth.Login.Sessions.{answer-Shows}
use vms_ai.Auth.Login.Throttle.{
  Attempt, left_by, wrong, AreRejected, AreWithin, five_wrong_logins_lock_ip,
}

abbrev key_settings : AuthConfig
key_settings = record { enabled = true; secret_key = bytes "key"; token_expire_minutes = pos 60 }

abbrev bob : User
bob = record blank_user {
  id = pos 9;
  username = bytes "bob";
  role_id = pos 2;
  is_active = true;
  token_version = pos 4;
}

bob-HasInts : HasInts bob
bob-HasInts = record { id = omega arith; role_id = omega arith; token_version = omega arith }

abbrev zeros : ℕ → ℕ
zeros i = 0

abbrev signs : Text → Claims → Text
signs key claims = bytes "a.b.c"

-- A library that knows the claims of one token.
abbrev knows : Claims → JwtLibrary
knows claims = record { decode = λ t. some claims; verifies = λ key who t. true }

knows_back :
    (claims : Claims) → ReadsBack (knows claims) (pos 1100) (bytes "key") (bytes "a.b.c") claims
unfolding occurrences
knows_back claims = record {
  decoded = refl;
  verified = λ who from until a b c d e. refl;
  parts = refl;
}

abbrev access_claims : Claims
access_claims = built zeros (pos 1000) bob (pos 3600) (bytes "access") (with_profile bob)

abbrev bobs : UserTable
bobs = record {
  first = λ _. some (record bob { role_id = pos 1; role_name = bytes "admin" });
  again = λ _. none;
}

validate_token-create_access_token_jwt_example :
    validate_token
      (knows access_claims)
      key_settings
      bobs
      (pos 0)
      (create_access_token_jwt signs key_settings zeros (pos 1000) bob)
    ≡ session bobs bob
unfolding create_access_token_jwt sign_user_token ◌+ℤ◌ ◌*ℤ◌
validate_token-create_access_token_jwt_example =
    validate_token-create_access_token_jwt (knows access_claims) signs key_settings zeros (pos 1000)
      (pos 1100) bob bob-HasInts refl bobs (pos 0) refl (knows_back access_claims)

abbrev ticket_claims : Claims
ticket_claims = built zeros (pos 1090) bob (pos 30) (bytes "ws_ticket") (with_ip (bytes "10.0.0.1"))

decode_ws_ticket_jwt-create_ws_ticket_jwt_example :
    decode_ws_ticket_jwt
      (knows ticket_claims)
      key_settings
      (create_ws_ticket_jwt signs key_settings zeros (pos 1090) bob (bytes "10.0.0.1"))
      (bytes "10.0.0.2")
    ≡ none
unfolding guard ◌>>◌ create_ws_ticket_jwt sign_user_token ◌+ℤ◌
decode_ws_ticket_jwt-create_ws_ticket_jwt_example =
    decode_ws_ticket_jwt-create_ws_ticket_jwt (knows ticket_claims) signs key_settings zeros
      (pos 1090) (pos 1100) bob bob-HasInts refl (bytes "10.0.0.1") (bytes "10.0.0.2") refl
      (knows_back ticket_claims)

-- An IPv4 address in IPv6 is that address.
mapped_client : lets_in (bytes "10.0.0.1") (bytes "::ffff:10.0.0.1") ≡ true
mapped_client = refl

jti_form : generate_jti zeros ≡ bytes "00000000-0000-4000-8000-000000000000"
unfolding generate_jti hex_draws
jti_form = refl

-- A library whose hashes are 64 letters.
abbrev letters : Text
letters = bytes "aaaaaaaaaaaaaaaaaaaaaaaaaaaaaaaaaaaaaaaaaaaaaaaaaaaaaaaaaaaaaaaa"

abbrev drawn : Text
drawn = bytes "00112233445566778899aabbccddeeff"

abbrev bob_with_hash : User
bob_with_hash = record bob {
  password_hash =
      bytes
        "$argon2id$v=19$m=65536,t=3,p=4$00112233445566778899aabbccddeeff$aaaaaaaaaaaaaaaaaaaaaaaaaaaaaaaaaaaaaaaaaaaaaaaaaaaaaaaaaaaaaaaa";
  salt = bytes "argon2";
}

drawn-IsSalt : IsSalt drawn
unfolding split_at_first
drawn-IsSalt = record { size = refl; plain = refl }

letters_long :
    (argon2 : Argon2) (raw : Text)
    → some (λ (password salt : Text). some letters) ≡ some argon2
    → argon2 (bytes "secret") drawn ≡ some raw
    → length raw ≡ 64
letters_long argon2 raw e f =
    let same : some letters ≡ some raw =
      ap (λ g. g (bytes "secret") drawn) (some_injective e) ∙ f in
    sym (ap length (some_injective same))

verify_user_password-hash_password_with_salt_example :
    verify_user_password (some (λ password salt. some letters)) (bytes "secret") bob_with_hash
    ≡ true
unfolding hash_password_with_salt hash_password_argon2
verify_user_password-hash_password_with_salt_example =
    verify_user_password-hash_password_with_salt (some (λ password salt. some letters))
      (bytes "secret") drawn bob_with_hash drawn-IsSalt letters_long refl

-- A desk whose table has nobody; the directory accepts the one password "ldap".
abbrev desk_at : ℕ → Option (Text → Text → Bool) → Desk
desk_at clock ldap = record {
  clock = clock;
  now = pos 1000;
  unix_time = 1000;
  jwt = knows [];
  sign = signs;
  auth = key_settings;
  draw = zeros;
  argon2 = none;
  salt = drawn;
  by_username = λ u. none;
  by_username_again = λ u. some bob;
  by_id = λ i. none;
  can_store = true;
  ldap = ldap;
  default_password_active = false;
}

abbrev directory : Option (Text → Text → Bool)
directory = some (λ u p. true)

bob_logs_in :
    answer (desk_at 5 directory) (logs_in (bytes "10.0.0.1") (bytes "bob") (bytes "ldap") new)
    ≡ logged_in (access_token (desk_at 5 directory) bob)
unfolding answer login malformed is_safe_credential no_control well_formed_login checked_login
    with_match local_match ldap_match ldap_user ldap_reply RateLimiter.check_login
    RateLimiter.is_allowed RateLimiter.allow_entry lookup RateLimiter.evict_stale RateLimiter.prune
    insert
bob_logs_in = refl

answer-Shows_example :
    Shows
      (desk_at 5 directory)
      (logs_in (bytes "10.0.0.1") (bytes "bob") (bytes "ldap") new)
      (access_token (desk_at 5 directory) bob)
answer-Shows_example =
    answer-Shows (desk_at 5 directory) (logs_in (bytes "10.0.0.1") (bytes "bob") (bytes "ldap") new)
      (access_token (desk_at 5 directory) bob) bob_logs_in

-- Somebody guesses at passwords from one address, and nobody is in the directory.
abbrev guess : ℕ → Attempt
guess second = record {
  desk = desk_at (seconds second) none;
  ip = bytes "10.0.0.7";
  username = bytes "bob";
  password = bytes "guess";
}

abbrev guesses : List Attempt
guesses = guess 100 ∷ guess 101 ∷ guess 102 ∷ guess 103 ∷ guess 104 ∷ []

guesses-AreRejected : AreRejected (bytes "10.0.0.7") guesses new
unfolding AreRejected login malformed is_safe_credential no_control well_formed_login checked_login
    with_match local_match ldap_match ldap_reply RateLimiter.check_login RateLimiter.is_allowed
    RateLimiter.allow_entry lookup RateLimiter.evict_stale RateLimiter.prune insert
    RateLimiter.record_login_failure RateLimiter.record_failure RateLimiter.fail_entry
guesses-AreRejected = (λ e. refl, (λ e. refl, (λ e. refl, (λ e. refl, (λ e. refl, tt)))))

wrong-guesses : wrong (bytes "10.0.0.7") guesses new ≡ 5
unfolding wrong login malformed is_safe_credential no_control well_formed_login checked_login
    with_match local_match ldap_match ldap_reply RateLimiter.check_login RateLimiter.is_allowed
    RateLimiter.allow_entry lookup RateLimiter.evict_stale RateLimiter.prune insert
    RateLimiter.record_login_failure RateLimiter.record_failure RateLimiter.fail_entry
wrong-guesses = refl

five_wrong_logins_lock_ip_example :
    (login
      (desk_at (seconds 300) directory)
      (bytes "10.0.0.7")
      (bytes "bob")
      (bytes "ldap")
      (left_by [] (left_by guesses new))).2
    ≡ refused 429 ip_message
unfolding AreWithin AreRejected malformed is_safe_credential no_control
five_wrong_logins_lock_ip_example =
    five_wrong_logins_lock_ip (desk_at (seconds 300) directory) (bytes "10.0.0.7") (bytes "bob")
      (bytes "ldap") (seconds 100) new guesses [] tt (omega arith) guesses-AreRejected
      (omega (arith, wrong-guesses)) tt tt (omega arith) refl

-- ===== src/Auth/Login.antt =====
-- The handlers of cpp-backend/src/api/user_controller.cpp that give out sessions: /api/auth/login,
-- /api/auth/2fa/verify and /api/auth/change-password-on-login. The repository answers and does not
-- throw; what a handler writes to it is a list, in order.
pub mod Factors
pub mod Shows
pub mod Sessions
pub mod Traces
pub mod Throttle
mod Tests
use vms_ai.Prelude.{
  ℕ, ◌+◌, ◌==◌, ltb, leb, ℤ, pos, ◌+ℤ◌, Bool, true, false, not, ◌&&◌, ◌||◌, Option, none, some,
  List, [], ◌∷◌, ◌++◌, length, if◌then◌else◌, Text, bytes, text_beq,
}
use vms_ai.RateLimiter.{RateLimiter, check_login, record_login_success, record_login_failure}
use vms_ai.Totp.{verify_code}
use vms_ai.Auth.Users.{User, blank_user, AuthConfig}
use vms_ai.Auth.Jwt.{
  JwtLibrary, Claims, verify_two_factor_temp_token_jwt, verify_password_change_temp_token_jwt,
}
use vms_ai.Auth.Issue.{
  create_access_token_jwt, create_two_factor_temp_token_jwt, create_password_change_temp_token_jwt,
}
use vms_ai.Auth.Passwords.{
  Argon2, is_argon2_hash, verify_password_argon2, verify_user_password, hash_password_with_salt,
}

-- cpp-backend/src/utils/validator.cpp: no control character of ASCII.
unfoldable pub no_control : Text → Bool
no_control [] = true
no_control (c ∷ s) = let rest = no_control s in not (ltb c 32 || c == 127) && rest

unfoldable pub is_safe_credential : Text → ℕ → Bool
is_safe_credential value max_length = not (ltb max_length (length value)) && no_control value

-- What is wrong with the form of a login.
unfoldable pub malformed : Text → Text → Option Text
malformed username password =
    if length username == 0 || length password == 0
    then some (bytes "Username and password are required")
    else if not (is_safe_credential username 128)
    then some (bytes "Invalid username format")
    else if ltb 256 (length password)
    then some (bytes "Password too long")
    else none

pub data Write : Type 0 where
  stored_password : ℤ → Text → Text → Write
  bumped_version : ℤ → Write
  stored_login : ℤ → Write
  created_user : User → Write
  audited : ℤ → Text → Write

pub data LoginReply : Type 0 where
  refused : ℕ → Text → LoginReply  -- with a status
  failed : LoginReply  -- an exception
  second_factor_required : Text → Bool → LoginReply  -- with a temporary token; the password is the default
  password_change_required : Text → LoginReply  -- with a temporary token
  logged_in : Text → LoginReply  -- with an access token, in the body and in the cookie

-- What a request finds: the clocks, the settings, the draws, the answers of the repository and of LDAP.
pub record Desk : Type 0 where
  pub clock : ℕ  -- of the limiter, in nanoseconds
  pub now : ℤ  -- in seconds
  pub unix_time : ℕ  -- of the one-time codes
  pub jwt : JwtLibrary
  pub sign : Text → Claims → Text
  pub auth : AuthConfig
  pub draw : ℕ → ℕ
  pub argon2 : Option Argon2
  pub salt : Text
  pub by_username : Text → Option User
  pub by_username_again : Text → Option User  -- once the user has been created
  pub by_id : ℤ → Option User
  pub can_store : Bool  -- updatePasswordWithSalt
  pub ldap : Option (Text → Text → Bool)  -- where it is enabled
  pub default_password_active : Bool

module _ (d : Desk) where
  unfoldable pub access_token : User → Text
  access_token user = create_access_token_jwt d.sign d.auth d.draw d.now user

  unfoldable pub second_factor_token : User → Text
  second_factor_token user = create_two_factor_temp_token_jwt d.sign d.auth d.draw d.now user

  unfoldable pub password_token : User → Text
  password_token user = create_password_change_temp_token_jwt d.sign d.auth d.draw d.now user

  unfoldable pub must_change_password : User → Bool
  must_change_password user = text_beq user.username (bytes "admin") && d.default_password_active

  -- The hash that replaces one of an older format; nothing where the hashing throws.
  unfoldable pub with_hash : User → Option (Text × Text) → User × List Write
  with_hash user none = (user, [])
  with_hash user (some (h, salt)) =
      (record user { password_hash = h; salt = salt }, stored_password user.id h salt ∷ [])

  unfoldable pub rehashed : Text → User → User × List Write
  rehashed password user =
      with_hash user (hash_password_with_salt d.argon2 d.salt password user.username)

  -- The user that the password fits, none where there is none.
  unfoldable pub local_match : Text → Option User → Option (User × List Write)
  local_match password none = none
  local_match password (some user) =
      if is_argon2_hash user.password_hash
        && verify_password_argon2 d.argon2 password user.password_hash
      then some (user, [])
      else if verify_user_password d.argon2 password user
      then some (rehashed password user)
      else none

  -- The answer to a password that fits, with whether a second factor and a new password are wanted.
  unfoldable pub reply_to : User → List Write → Bool → Bool → List Write × LoginReply
  reply_to user writes true must_change =
      (writes, second_factor_required (second_factor_token user) must_change)
  reply_to user writes false true = (
    writes ++ audited user.id (bytes "LOGIN_DEFAULT_PWD") ∷ [],
    password_change_required (password_token user),
  )
  reply_to user writes false false = (
    writes ++ stored_login user.id ∷ audited user.id (bytes "LOGIN") ∷ [],
    logged_in (access_token user),
  )

  unfoldable pub local_reply : User → List Write → List Write × LoginReply
  local_reply user writes = reply_to user writes user.two_factor_enabled (must_change_password user)

  -- The user of the directory, and what creates it.
  unfoldable pub ldap_user : Text → Option User → Option User × List Write
  ldap_user username (some user) = (some user, [])
  ldap_user username none = (
    d.by_username_again username,
    created_user (record blank_user { username = username; role_id = pos 2; is_active = true })
        ∷ [],
  )

  unfoldable pub ldap_match :
      Option (Text → Text → Bool) → Text → Text → Option User → Option User × List Write
  ldap_match none username password found = (none, [])
  ldap_match (some accepts) username password found =
      if accepts username password then ldap_user username found else (none, [])

  unfoldable pub ldap_reply :
      Text → Text → RateLimiter → Option User × List Write → RateLimiter × List Write × LoginReply
  ldap_reply ip username s (none, writes) = (
    record_login_failure ip username d.clock s,
    writes,
    refused 401 (bytes "Invalid credentials"),
  )
  ldap_reply ip username s (some user, writes) = (
    record_login_success ip username s,
    writes ++ stored_login user.id ∷ audited user.id (bytes "LOGIN") ∷ [],
    logged_in (access_token user),
  )

  unfoldable pub with_match :
      Text
      → Text
      → Text
      → RateLimiter
      → Option (User × List Write)
      → RateLimiter × List Write × LoginReply
  with_match ip username password s (some (user, writes)) =
      let (written, reply) = local_reply user writes in
      (record_login_success ip username s, written, reply)
  with_match ip username password s none =
      ldap_reply ip username s (ldap_match d.ldap username password (d.by_username username))

  -- The password, once the limiter has let the request through.
  unfoldable pub checked_login :
      Text → Text → Text → RateLimiter × Text → RateLimiter × List Write × LoginReply
  checked_login ip username password (s, []) =
      with_match ip username password s (local_match password (d.by_username username))
  checked_login ip username password (s, c ∷ message) = (s, [], refused 429 (c ∷ message))

  unfoldable pub well_formed_login :
      Text → Text → Text → RateLimiter → Option Text → RateLimiter × List Write × LoginReply
  well_formed_login ip username password s (some message) = (s, [], refused 400 message)
  well_formed_login ip username password s none =
      checked_login ip username password (check_login ip username d.clock s)

  unfoldable pub login : Text → Text → Text → RateLimiter → RateLimiter × List Write × LoginReply
  login ip username password s =
      well_formed_login ip username password s (malformed username password)

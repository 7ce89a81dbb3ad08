-- ===== src/Auth/Validate.antt =====
-- cpp-backend/src/middleware/auth_middleware.cpp: validateToken.
use vms_ai.Prelude.{
  ◌==◌, ℤ, pos, ◌-ℤ◌, ◌*ℤ◌, ltb_ℤ, Bool, not, ◌&&◌, Option, none, some, ◌++◌, drop, Text, bytes,
  int_beq, if◌then◌else◌,
}
use vms_ai.MediaSigner.{starts_with, constant_time_equals}
use vms_ai.Hash.Sha256.{hash}
use vms_ai.Auth.Numbers.{
  ◌>>=◌, ◌>>◌, guard, stoi, stoll, split_at_first, split_at_last, occurrences,
}
use vms_ai.Auth.Users.{User, AuthConfig, UserTable}
use vms_ai.Auth.Jwt.{JwtLibrary, decode_access_token_jwt_user}

-- The row of an active user.
unfoldable pub active_user : Option User → Option User
active_user none = none
active_user (some u) = if u.is_active then some u else none

-- The user of a JWT, as the user table has it.
unfoldable pub validate_jwt : JwtLibrary → AuthConfig → UserTable → Text → Option User
unfolding active_user
validate_jwt l cfg db token = do
  jwt_user ← decode_access_token_jwt_user l cfg token
  db_user ← active_user (db.first jwt_user.id)
  guard (int_beq db_user.token_version jwt_user.token_version)
  some (record jwt_user { role_id = db_user.role_id; role_name = db_user.role_name })

-- What stands behind one of the two prefixes.
unfoldable pub legacy_suffix : Text → Option Text
unfolding starts_with
legacy_suffix raw_token =
    if starts_with raw_token (bytes "local-access-token-")
    then some (drop 19 raw_token)
    else if starts_with raw_token (bytes "ldap-access-token-")
    then some (drop 18 raw_token)
    else none

-- The token is older than the time to live, in milliseconds.
unfoldable pub is_expired : AuthConfig → ℤ → ℤ → Bool
is_expired cfg now_ms token_ts =
    let ttl_ms = cfg.token_expire_minutes *ℤ pos 60000 in
    ltb_ℤ (pos 0) ttl_ms && ltb_ℤ ttl_ms (now_ms -ℤ token_ts)

-- "<prefix>-<user_id>-<timestamp_ms>.<signature>"
unfoldable pub validate_legacy : AuthConfig → UserTable → ℤ → Text → Option User
unfolding active_user legacy_suffix is_expired
validate_legacy cfg db now_ms token = do
  (raw_token, provided_sig) ← split_at_last b'.' token
  guard (constant_time_equals provided_sig (hash (raw_token ++ cfg.secret_key)))
  suffix ← legacy_suffix raw_token
  (user_part, timestamp_part) ← split_at_first b'-' suffix
  user_id ← stoi user_part
  db_user ← active_user (db.first user_id)
  guard (int_beq db_user.token_version (pos 0))
  token_ts ← stoll timestamp_part
  guard (not (is_expired cfg now_ms token_ts))
  active_user (db.again user_id)

unfoldable pub validate_token : JwtLibrary → AuthConfig → UserTable → ℤ → Text → Option User
unfolding occurrences
validate_token l cfg db now_ms token =
    if occurrences b'.' token == 2
    then validate_jwt l cfg db token
    else validate_legacy cfg db now_ms token

-- ===== src/Auth/Jwt.antt =====
-- cpp-backend/src/utils/jwt_utils.cpp. jwt-cpp is a parameter: what a token carries, and whether its
-- HS256 signature under a key, its issuer and its times are right at the time of the call. An
-- out-parameter is the value of the call, since no caller reads it where the call returns false.
use vms_ai.Prelude.{
  ◌==◌, ℤ, pos, Bool, true, false, not, ◌&&◌, ◌||◌, Option, none, some, [], length, Map, lookup,
  text_eq, Text, bytes, text_beq, if◌then◌else◌,
}
use vms_ai.MediaSigner.{starts_with}
use vms_ai.Auth.Numbers.{◌>>=◌, ◌>>◌, guard, stoi, drop_prefix}
use vms_ai.Auth.Users.{User, blank_user, AuthConfig}

-- The value of a claim: a string, a boolean, a time in seconds since the epoch, or a JSON value of
-- another kind.
pub data Claim : Type 0 where
  string : Text → Claim
  boolean : Bool → Claim
  date : ℤ → Claim
  other : Claim

abbrev pub Claims : Type 0
Claims = Map Text Claim

pub record JwtLibrary : Type 0 where
  pub decode : Text → Option Claims  -- none: it throws
  pub verifies : Text → Text → Text → Bool  -- under a key, from an issuer; false: it throws

abbrev pub issuer : Text
issuer = bytes "vms-backend"

-- get_payload_claim(name).as_string(), none where either throws
unfoldable pub string_claim : Text → Claims → Option Text
unfolding lookup
string_claim name claims = elim (lookup name claims) [ some (string s) ↦ some s | _ ↦ none ]

-- The claim where there is one, and a default where there is none.
unfoldable pub string_or : Text → Text → Claims → Option Text
unfolding lookup
string_or name fallback claims = elim (lookup name claims) [
  | none ↦ some fallback
  | some (string s) ↦ some s
  | some _ ↦ none
]

unfoldable pub boolean_or : Text → Bool → Claims → Option Bool
unfolding lookup
boolean_or name fallback claims = elim (lookup name claims) [
  | none ↦ some fallback
  | some (boolean b) ↦ some b
  | some _ ↦ none
]

-- The token version, 0 where the claim is missing.
unfoldable pub version_claim : Claims → Option ℤ
unfolding lookup stoi
version_claim claims = elim (lookup (bytes "ver") claims) [
  | none ↦ some (pos 0)
  | some (string s) ↦ stoi s
  | some _ ↦ none
]

-- get_subject(), and std::stoi of it
unfoldable pub subject_id : Claims → Option ℤ
unfolding string_claim
subject_id claims = do
  sub ← string_claim (bytes "sub") claims
  guard (not (length sub == 0))
  stoi sub

-- The user of the claims; the claims say that it is active.
unfoldable pub user_of_claims : Claims → Option User
user_of_claims claims = do
  id ← subject_id claims
  username ← string_claim (bytes "username") claims
  role ← string_claim (bytes "role_id") claims
  role_id ← stoi role
  role_name ← string_or (bytes "role_name") [] claims
  active ← boolean_or (bytes "is_active") true claims
  two_factor ← boolean_or (bytes "two_factor_enabled") false claims
  ver ← version_claim claims
  guard active
  some (record blank_user {
    id = id;
    username = username;
    role_id = role_id;
    role_name = role_name;
    is_active = active;
    two_factor_enabled = two_factor;
    token_version = ver;
  })

-- Without the prefix of an IPv4 address in IPv6.
unfoldable pub normalized : Text → Text
unfolding starts_with drop_prefix
normalized ip = if starts_with ip (bytes "::ffff:") then drop_prefix ip (bytes "::ffff:") else ip

-- The client is not the one that the ticket is bound to.
unfoldable pub ip_mismatch : Text → Text → Bool
unfolding normalized
ip_mismatch bound_ip client_ip =
    let client = normalized client_ip in
    not (text_beq client (bytes "127.0.0.1"))
    && not (text_beq client (bytes "::1"))
    && not (text_beq client (bytes "localhost"))
    && not (text_beq (normalized bound_ip) client)

-- The binding of a ticket to the address of its client.
unfoldable pub ip_allowed : Claims → Text → Option (Unit {0})
unfolding ip_mismatch lookup
ip_allowed claims client_ip =
    if length client_ip == 0 then some tt else elim (lookup (bytes "ip") claims) [
      | none ↦ some tt
      | some (string bound_ip) ↦ guard (not (ip_mismatch bound_ip client_ip))
      | some _ ↦ none
    ]

module _ (l : JwtLibrary) (cfg : AuthConfig) where
  -- decode, verify, and the test of the use
  unfoldable pub checked : (Text → Bool) → Text → Option Claims
  unfolding string_or
  checked predicate token = do
    claims ← l.decode token
    guard (l.verifies cfg.secret_key issuer token)
    token_use ← string_or (bytes "token_use") (bytes "access") claims
    guard (predicate token_use)
    some claims

  unfoldable pub verify_jwt_for_use : (Text → Bool) → Text → Option ℤ
  verify_jwt_for_use predicate token = do claims ← checked predicate token; subject_id claims

  unfoldable pub decode_jwt_user_for_use : (Text → Bool) → Text → Option User
  decode_jwt_user_for_use predicate token = do
    claims ← checked predicate token
    user_of_claims claims

  unfoldable pub verify_access_token_jwt : Text → Option ℤ
  verify_access_token_jwt = verify_jwt_for_use (λ u. length u == 0 || text_beq u (bytes "access"))

  unfoldable pub decode_access_token_jwt_user : Text → Option User
  decode_access_token_jwt_user =
      decode_jwt_user_for_use (λ u. length u == 0 || text_beq u (bytes "access"))

  unfoldable pub verify_two_factor_temp_token_jwt : Text → Option ℤ
  verify_two_factor_temp_token_jwt = verify_jwt_for_use (λ u. text_beq u (bytes "2fa_pending"))

  unfoldable pub verify_password_change_temp_token_jwt : Text → Option ℤ
  verify_password_change_temp_token_jwt =
      verify_jwt_for_use (λ u. text_beq u (bytes "password_change_pending"))

  -- The user of a ticket and its id.
  unfoldable pub decode_ws_ticket_jwt : Text → Text → Option (User × Text)
  unfolding string_claim ip_allowed
  decode_ws_ticket_jwt token client_ip = do
    claims ← l.decode token
    jti ← string_claim (bytes "jti") claims
    ip_allowed claims client_ip
    user ← decode_jwt_user_for_use (λ u. text_beq u (bytes "ws_ticket")) token
    some (user, jti)

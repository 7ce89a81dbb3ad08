-- ===== src/Auth/Tests.antt =====
-- Runs of the authentication, and its theorems at concrete requests.
use vms_ai.Prelude.{
  ◌≡◌, ◌⊎◌, refl, pos, negsuc, true, false, none, some, [], ◌∷◌, bytes, text_beq, if◌then◌else◌,
  text_eq,
}
use vms_ai.MediaSigner
use vms_ai.Auth.Numbers.{stoi}
use vms_ai.Auth.Users.{User, blank_user, AuthConfig, UserTable}
use vms_ai.Auth.Jwt.{
  string, JwtLibrary, checked, string_or, string_claim, boolean_or, version_claim, subject_id,
  user_of_claims, decode_jwt_user_for_use, decode_access_token_jwt_user, verify_jwt_for_use,
  verify_access_token_jwt,
}
use vms_ai.Auth.Tokens.{JwtShows, LegacyShows, validate_token_shows}
use vms_ai.Auth.Uses.{access, as_id, as_user, one_use}
use vms_ai.Auth.Validate.{validate_jwt, validate_token}
use vms_ai.Auth.Gate.{
  get, Request, Surroundings, passed, before_handle, authenticate, with_header, header_or_cookie,
  token_outcome, is_options, is_get, is_public, is_db_independent_api_path,
}
use vms_ai.Auth.Numbers.{before_first}
use vms_ai.Auth.Admission.{Admission, before_handle-Admission}

stoi_reads : stoi (bytes " -42-1709") ≡ some (negsuc 41)
unfolding stoi
stoi_reads = refl

stoi_throws : stoi (bytes "2147483648") ≡ none
unfolding stoi
stoi_throws = refl

-- A library that knows one token, "a.b.c".
abbrev one_token : JwtLibrary
one_token = record {
  decode = λ t.
      if text_beq t (bytes "a.b.c")
      then some (
          (bytes "sub", string (bytes "7"))
          ∷ (bytes "username", string (bytes "ann"))
          ∷ (bytes "role_id", string (bytes "3"))
          ∷ (bytes "ver", string (bytes "2"))
          ∷ [])
      else none;
  verifies = λ key issuer t. text_beq key (bytes "key");
}

abbrev settings : AuthConfig
settings = record { enabled = true; secret_key = bytes "key"; token_expire_minutes = pos 60 }

abbrev ann : User
ann = record blank_user {
  id = pos 7;
  username = bytes "ann";
  role_id = pos 1;
  role_name = bytes "admin";
  is_active = true;
  token_version = pos 2;
}

abbrev user_table : UserTable
user_table = record { first = λ _. some ann; again = λ _. none }

token_of_ann : validate_token one_token settings user_table (pos 0) (bytes "a.b.c") ≡ some ann
unfolding validate_token validate_jwt decode_access_token_jwt_user decode_jwt_user_for_use checked
    user_of_claims subject_id string_claim string_or boolean_or version_claim
token_of_ann = refl

validate_token_shows_example :
    JwtShows one_token settings user_table (bytes "a.b.c") ann
    ⊎ LegacyShows settings user_table (pos 0) (bytes "a.b.c") ann
validate_token_shows_example =
    validate_token_shows one_token settings user_table (pos 0) (bytes "a.b.c") token_of_ann

id_of_ann : verify_access_token_jwt one_token settings (bytes "a.b.c") ≡ some (pos 7)
unfolding verify_access_token_jwt verify_jwt_for_use checked subject_id string_claim string_or stoi
id_of_ann = refl

user_of_ann :
    decode_access_token_jwt_user one_token settings (bytes "a.b.c")
    ≡ some (record ann { role_id = pos 3; role_name = [] })
unfolding decode_access_token_jwt_user decode_jwt_user_for_use checked user_of_claims subject_id
    string_claim string_or boolean_or version_claim
user_of_ann = refl

one_use_example : access ≡ access
one_use_example =
    one_use one_token settings (bytes "a.b.c") (as_id refl id_of_ann) (as_user refl user_of_ann)

abbrev surroundings : Surroundings
surroundings = record {
  jwt = one_token;
  media = record { hmac_sha256 = λ key text. text; print_int = λ i. [] };
  auth = settings;
  media_settings = record {
    env_secret = none;
    auth_secret = bytes "key";
    max_ttl_seconds = pos 900;
    allow_legacy_unsigned = false;
  };
  strict_scope_required = true;
  db_ready = true;
  users = user_table;
  now_ms = pos 0;
  now_s = pos 0;
}

abbrev with_cookie : Request
with_cookie = record {
  method = get;
  url = bytes "/api/cameras?limit=5";
  header = λ name. if text_beq name (bytes "Cookie") then bytes "vms_session=a.b.c; x=1" else [];
  url_param = λ name. none;
}

cookie_passes : before_handle surroundings with_cookie ≡ passed (some ann)
unfolding before_handle authenticate with_header header_or_cookie token_outcome is_options is_get
    is_public is_db_independent_api_path before_first validate_token validate_jwt
    decode_access_token_jwt_user decode_jwt_user_for_use checked user_of_claims subject_id
    string_claim string_or boolean_or version_claim MediaSigner.starts_with
cookie_passes = refl

-- To log out and to change the default password take an access token.
not_public :
    (is_public (bytes "/api/auth/logout") ≡ false)
    × (is_public (bytes "/api/auth/change-password-on-login") ≡ false)
    × (is_public (bytes "/api/auth/2fa/verify") ≡ true)
unfolding is_public
not_public = (refl, refl, refl)

before_handle-Admission_example : Admission surroundings with_cookie (some ann)
before_handle-Admission_example = before_handle-Admission surroundings with_cookie cookie_passes

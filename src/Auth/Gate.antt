-- ===== src/Auth/Gate.antt =====
-- cpp-backend/src/middleware/auth_middleware.cpp: what stands before each request.
use vms_ai.Prelude.{
  ℕ, ltb, ◌==◌, ℤ, negsuc, Bool, true, false, not, ◌&&◌, ◌||◌, Option, none, some, [], ◌++◌, length,
  drop, take, Text, bytes, text_beq, if◌then◌else◌,
}
use vms_ai.MediaSigner.{
  starts_with, has_part, constant_time_equals, MediaAccessScope, verify_presign,
}
use vms_ai.MediaSigner
use vms_ai.Auth.Numbers.{◌>>=◌, stoi, stoll, before_first, behind_part}
use vms_ai.Auth.Users.{User, AuthConfig, UserTable}
use vms_ai.Auth.Jwt.{JwtLibrary}
use vms_ai.Auth.Validate.{validate_token}

-- The paths that need no database.
unfoldable pub is_db_independent_api_path : Text → Bool → Bool
unfolding starts_with has_part
is_db_independent_api_path path auth_enabled =
    if text_beq path (bytes "/api/health")
      || text_beq path (bytes "/api/health/live")
      || text_beq path (bytes "/api/health/ready")
    then true
    else if starts_with path (bytes "/api/snapshots/files/")
        || starts_with path (bytes "/api/storage/faces/")
    then true
    else if auth_enabled
    then false
    else if text_beq path (bytes "/api/system/stats")
        || text_beq path (bytes "/api/system/onvif/discover")
        || text_beq path (bytes "/api/system/network/scan/start")
        || text_beq path (bytes "/api/system/network/scan/status")
        || text_beq path (bytes "/api/system/network/scan/stop")
        || text_beq path (bytes "/api/system/network/cache")
        || text_beq path (bytes "/api/cameras/discover")
        || starts_with path (bytes "/api/cameras/discover/status/")
        || starts_with path (bytes "/api/cameras/discover/results/")
        || starts_with path (bytes "/api/snapshots")
        || starts_with path (bytes "/api/reid/")
    then true
    else starts_with path (bytes "/api/cameras/") && has_part path (bytes "/hls/")

pub data Method : Type 0 where
  get : Method
  options : Method
  other_method : Method

-- crow::request: a header that is not there is empty.
pub record Request : Type 0 where
  pub method : Method
  pub url : Text
  pub header : Text → Text
  pub url_param : Text → Option Text

-- What the request is answered with.
pub data Refusal : Type 0 where
  database_unavailable : Refusal
  scope_required : Refusal
  header_required : Refusal
  bad_format : Refusal
  bad_token : Refusal

pub data Handled : Type 0 where
  passed : Option User → Handled
  refused : Refusal → Handled

unfoldable pub code_of : Refusal → ℕ
code_of database_unavailable = 503
code_of _ = 401

-- What the middleware asks of its surroundings.
pub record Surroundings : Type 0 where
  pub jwt : JwtLibrary
  pub media : MediaSigner.Library
  pub auth : AuthConfig
  pub media_settings : MediaSigner.Settings
  pub strict_scope_required : Bool
  pub db_ready : Bool
  pub users : UserTable
  pub now_ms : ℤ
  pub now_s : ℤ

unfoldable pub is_options : Method → Bool
is_options options = true
is_options _ = false

unfoldable pub is_get : Method → Bool
is_get get = true
is_get _ = false

unfoldable pub is_public : Text → Bool
is_public path =
    text_beq path (bytes "/api/auth/login")
    || text_beq path (bytes "/api/auth/2fa/verify")
    || text_beq path (bytes "/api/health")
    || text_beq path (bytes "/api/health/live")
    || text_beq path (bytes "/api/health/ready")
    || text_beq path (bytes "/api/v1/metrics")
    || text_beq path (bytes "/api/system/streaming-config")

unfoldable pub is_media : Text → Bool
unfolding starts_with has_part
is_media p =
    starts_with p (bytes "/api/snapshots/files/")
    || (starts_with p (bytes "/api/cameras/") && has_part p (bytes "/frame"))
    || (starts_with p (bytes "/api/events/") && has_part p (bytes "/video"))
    || (starts_with p (bytes "/api/recordings/") && has_part p (bytes "/video"))
    || starts_with p (bytes "/api/storage/")

-- The session cookie as a header, empty where there is none.
unfoldable pub cookie_header : Text → Text
unfolding behind_part before_first
cookie_header cookies = elim (behind_part (bytes "vms_session=") cookies) [
  | none ↦ []
  | some behind ↦
      let token = before_first b';' behind in
      if length token == 0 then [] else bytes "Bearer " ++ token
]

unfoldable pub text_or_empty : Option Text → Text
text_or_empty none = []
text_or_empty (some s) = s

unfoldable pub camera_or : Option Text → Option ℤ
camera_or none = some (negsuc 0)
camera_or (some s) = stoi s

-- The signed link in the query: its expiry, its signature and its scope, none where a number throws
-- or one of the two is missing.
unfoldable pub link_of : Request → Option (ℤ × Text × MediaAccessScope)
unfolding text_or_empty camera_or
link_of req = do
  exp_s ← req.url_param (bytes "exp")
  sig ← req.url_param (bytes "sig")
  exp ← stoll exp_s
  camera_id ← camera_or (req.url_param (bytes "camera_id"))
  some (
    exp,
    sig,
    record {
      scope = text_or_empty (req.url_param (bytes "scope"));
      camera_id = camera_id;
      resource_id = text_or_empty (req.url_param (bytes "resource_id"));
      role = text_or_empty (req.url_param (bytes "role"));
    },
  )

unfoldable pub token_outcome : Option User → Handled
token_outcome none = refused bad_token
token_outcome (some user) = passed (some user)

module _ (env : Surroundings) where
  unfoldable pub check_link : Text → ℤ × Text × MediaAccessScope → Handled
  check_link path (exp, sig, s) =
      if env.strict_scope_required && length s.scope == 0
      then refused scope_required
      else if verify_presign env.media env.media_settings env.now_s path exp sig s
      then passed none
      else refused header_required

  unfoldable pub link_outcome : Text → Option (ℤ × Text × MediaAccessScope) → Handled
  unfolding check_link
  link_outcome path none = refused header_required
  link_outcome path (some link) = check_link path link

  -- Without an Authorization header and a session cookie.
  unfoldable pub without_header : Request → Text → Handled
  without_header req path =
      if is_get req.method && is_media path
      then link_outcome path (link_of req)
      else refused header_required

  unfoldable pub with_header : Text → Handled
  with_header auth_header =
      if ltb (length auth_header) 8 || not (text_beq (take 7 auth_header) (bytes "Bearer "))
      then refused bad_format
      else token_outcome (validate_token env.jwt env.auth env.users env.now_ms (drop 7 auth_header))

  -- The header, or else the session cookie.
  unfoldable pub header_or_cookie : Request → Text
  unfolding cookie_header
  header_or_cookie req =
      if length (req.header (bytes "Authorization")) == 0
      then cookie_header (req.header (bytes "Cookie"))
      else req.header (bytes "Authorization")

  unfoldable pub authenticate : Request → Text → Handled
  authenticate req path =
      let auth_header = header_or_cookie req in
      if length auth_header == 0 then without_header req path else with_header auth_header

  unfoldable pub before_handle : Request → Handled
  before_handle req =
      let path = before_first b'?' req.url in
      if not (is_options req.method)
        && starts_with path (bytes "/api/")
        && not (is_db_independent_api_path path env.auth.enabled)
        && not env.db_ready
      then refused database_unavailable
      else if not env.auth.enabled
      then passed none
      else if is_options req.method
      then passed none
      else if is_get req.method && not (starts_with path (bytes "/api/"))
      then passed none
      else if is_public path
      then passed none
      else authenticate req path

  -- The check outside of the middleware: the header alone.
  unfoldable pub validate : Request → Bool
  validate req =
      let auth_header = req.header (bytes "Authorization") in
      if length auth_header == 0
        || ltb (length auth_header) 8
        || not (text_beq (take 7 auth_header) (bytes "Bearer "))
      then false
      else elim (validate_token env.jwt env.auth env.users env.now_ms (drop 7 auth_header)) [
        | none ↦ false
        | some user ↦ true
      ]

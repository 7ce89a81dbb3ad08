-- ===== src/MediaSigner.antt =====
-- cpp-backend/include/utils/media_signer.h and cpp-backend/src/utils/media_signer.cpp: the signed
-- links to snapshots and videos. The HMAC of OpenSSL and the printing of integers are a parameter,
-- and so are the settings. Times are seconds since the epoch, as unbounded integers.
pub mod Compare
pub mod Links
pub mod Presigned
mod Tests
use Prim.Native.Nat.{bit_xor, bit_or}
use vms_ai.Prelude.{
  ℕ, ◌+◌, ◌/◌, ◌%◌, ◌==◌, ltb, leb, ℤ, pos, negsuc, ◌+ℤ◌, ◌-ℤ◌, ltb_ℤ, leb_ℤ, Bool, true, false,
  not, ◌&&◌, ◌||◌, Option, none, some, List, [], ◌∷◌, ◌++◌, length, if◌then◌else◌, Text, bytes,
  text_beq,
}

pub record MediaAccessScope : Type 0 where
  pub scope : Text
  pub camera_id : ℤ
  pub resource_id : Text
  pub role : Text

pub record Library : Type 0 where
  pub hmac_sha256 : Text → Text → Text
  pub print_int : ℤ → Text

-- The environment variable, and what the configuration says.
pub record Settings : Type 0 where
  pub env_secret : Option Text
  pub auth_secret : Text
  pub max_ttl_seconds : ℤ
  pub allow_legacy_unsigned : Bool

unfoldable pub env_or : Option Text → Text → Text
env_or (some (c ∷ secret)) _ = c ∷ secret
env_or _ fallback = fallback

unfoldable pub get_media_signing_secret : Settings → Text
get_media_signing_secret cfg = env_or cfg.env_secret cfg.auth_secret

-- One hexadecimal digit, in lower case.
unfoldable pub hex_digit : ℕ → ℕ
hex_digit n = if ltb n 10 then 48 + n else 87 + n

unfoldable pub to_hex : Text → Text
to_hex [] = []
to_hex (c ∷ bin) = hex_digit (c / 16 % 16) ∷ hex_digit (c % 16) ∷ to_hex bin

-- The differences of the bytes, gathered by `|`.
unfoldable pub differences : ℕ → Text → Text → ℕ
differences diff (a ∷ s) (b ∷ t) = differences (bit_or diff (bit_xor a b)) s t
differences diff _ _ = diff

unfoldable pub constant_time_equals : Text → Text → Bool
constant_time_equals a b = if not (length a == length b) then false else differences 0 a b == 0

-- std::isalnum in the C locale, or one of _ - .
unfoldable pub kept_in_scope : ℕ → Bool
kept_in_scope c =
    (leb 48 c && leb c 57)
    || (leb 65 c && leb c 90)
    || (leb 97 c && leb c 122)
    || c == 95
    || c == 45
    || c == 46

unfoldable pub sanitize_scope_part : Text → Text
sanitize_scope_part [] = []
sanitize_scope_part (c ∷ value) =
    let rest = sanitize_scope_part value in if kept_in_scope c then c ∷ rest else rest

abbrev pub bar : Text
bar = bytes "|"

unfoldable pub signing_payload : Library → Text → ℤ → MediaAccessScope → Text
signing_payload l path exp s =
    path
    ++ (bar
        ++ (l.print_int exp
            ++ (bar
                ++ (sanitize_scope_part s.scope
                    ++ (bar
                        ++ ((if leb_ℤ (pos 0) s.camera_id then l.print_int s.camera_id else [])
                            ++ (bar
                                ++ (sanitize_scope_part s.resource_id
                                    ++ (bar ++ sanitize_scope_part s.role)))))))))

unfoldable pub starts_with : Text → Text → Bool
starts_with s [] = true
starts_with [] (c ∷ prefix) = false
starts_with (d ∷ s) (c ∷ prefix) = d == c && starts_with s prefix

-- The last characters of s are the suffix.
unfoldable pub ends_with : Text → Text → Bool
ends_with [] suffix = text_beq [] suffix
ends_with (c ∷ s) suffix = text_beq (c ∷ s) suffix || ends_with s suffix

-- path.find(part) != npos
unfoldable pub has_part : Text → Text → Bool
has_part [] part = starts_with [] part
has_part (c ∷ s) part = starts_with (c ∷ s) part || has_part s part

-- The three scopes of videos, by their prefix.
unfoldable pub video_matches : Text → Text → Text → Bool
video_matches prefix path resource_id =
    if not (starts_with path prefix) || not (ends_with path (bytes "/video"))
    then false
    else if ltb 0 (length resource_id)
    then text_beq path (prefix ++ (resource_id ++ bytes "/video"))
    else true

unfoldable pub frame_matches : Library → Text → ℤ → Bool
frame_matches l path camera_id =
    if not (starts_with path (bytes "/api/cameras/")) || not (has_part path (bytes "/frame"))
    then false
    else if leb_ℤ (pos 0) camera_id
    then starts_with path (bytes "/api/cameras/" ++ (l.print_int camera_id ++ bytes "/"))
    else true

unfoldable pub verify_scope_matches_path : Library → Text → MediaAccessScope → Bool
verify_scope_matches_path l path s =
    if length s.scope == 0
    then true
    else if text_beq s.scope (bytes "snapshot")
    then starts_with path (bytes "/api/snapshots/files/")
    else if text_beq s.scope (bytes "event_video")
    then video_matches (bytes "/api/events/") path s.resource_id
    else if text_beq s.scope (bytes "recording_video")
    then video_matches (bytes "/api/recordings/") path s.resource_id
    else if text_beq s.scope (bytes "recording_segment_video")
    then video_matches (bytes "/api/recordings/segments/") path s.resource_id
    else if text_beq s.scope (bytes "camera_frame")
    then frame_matches l path s.camera_id
    else if text_beq s.scope (bytes "storage")
    then starts_with path (bytes "/api/storage/")
    else false

unfoldable pub get_max_presign_ttl : Settings → ℤ
get_max_presign_ttl cfg =
    if ltb_ℤ (pos 0) cfg.max_ttl_seconds && leb_ℤ cfg.max_ttl_seconds (pos 86400)
    then cfg.max_ttl_seconds
    else pos 900

-- std::max(1, std::min(ttl_seconds, max_ttl))
unfoldable pub capped_ttl : Settings → ℤ → ℤ
capped_ttl cfg ttl_seconds =
    let max_ttl = get_max_presign_ttl cfg in
    let low = if ltb_ℤ max_ttl ttl_seconds then max_ttl else ttl_seconds in
    if ltb_ℤ (pos 1) low then low else pos 1

-- The signature for an expiry.
unfoldable pub signature : Library → Settings → Text → ℤ → MediaAccessScope → Text
signature l cfg path exp s =
    to_hex (l.hmac_sha256 (get_media_signing_secret cfg) (signing_payload l path exp s))

unfoldable pub expiry : Settings → ℤ → ℤ → ℤ
expiry cfg now ttl_seconds = now +ℤ capped_ttl cfg ttl_seconds

-- A part of the query, where its value is there.
unfoldable pub query_part : Bool → Text → Text → Text
query_part true name value = name ++ value
query_part false name value = []

unfoldable pub presign_path : Library → Settings → ℤ → Text → ℤ → MediaAccessScope → Text
presign_path l cfg now [] ttl_seconds s = []
presign_path l cfg now (c ∷ path) ttl_seconds s =
    let exp = expiry cfg now ttl_seconds in
    (c ∷ path)
    ++ (bytes "?exp="
        ++ (l.print_int exp
            ++ (bytes "&sig="
                ++ (signature l cfg (c ∷ path) exp s
                    ++ (query_part (ltb 0 (length s.scope)) (bytes "&scope=")
                          (sanitize_scope_part s.scope)
                        ++ (query_part (leb_ℤ (pos 0) s.camera_id) (bytes "&camera_id=")
                              (l.print_int s.camera_id)
                            ++ (query_part (ltb 0 (length s.resource_id)) (bytes "&resource_id=")
                                  (sanitize_scope_part s.resource_id)
                                ++ query_part (ltb 0 (length s.role)) (bytes "&role=")
                                    (sanitize_scope_part s.role))))))))

unfoldable pub is_unscoped : MediaAccessScope → Bool
is_unscoped s =
    length s.scope == 0
    && ltb_ℤ s.camera_id (pos 0)
    && length s.resource_id == 0
    && length s.role == 0

unfoldable pub legacy_signature : Library → Settings → Text → ℤ → Text
legacy_signature l cfg path exp =
    to_hex (l.hmac_sha256 (get_media_signing_secret cfg) (path ++ (bar ++ l.print_int exp)))

unfoldable pub verify_presign : Library → Settings → ℤ → Text → ℤ → Text → MediaAccessScope → Bool
verify_presign l cfg now path exp sig_hex s =
    if length path == 0 || length sig_hex == 0 || leb_ℤ exp (pos 0)
    then false
    else if ltb_ℤ exp now
    then false
    else if ltb_ℤ (get_max_presign_ttl cfg) (exp -ℤ now)
    then false
    else if not (verify_scope_matches_path l path s)
    then false
    else if constant_time_equals sig_hex (signature l cfg path exp s)
    then true
    else if cfg.allow_legacy_unsigned && is_unscoped s
    then constant_time_equals sig_hex (legacy_signature l cfg path exp)
    else false

-- ===== src/MediaSigner/Tests.antt =====
-- Runs of media_signer.cpp, and its theorems at a concrete link.
use vms_ai.Prelude.{
  ◌+◌, ◌%◌, ◌≡◌, refl, pos, negsuc, pos_part, neg_part, ◌+ℤ◌, ◌≤ℤ◌, arith, true, false, none, [],
  ◌∷◌, length, replicate, length-replicate, Text, bytes,
}
use vms_ai.Prelude.{◌≤ℤ◌, ◌+ℤ◌, ◌-ℤ◌}
use vms_ai.MediaSigner.Presigned.{link_text, scope_fields, verify_presign-presign_path}
use vms_ai.MediaSigner.{
  presign_path, capped_ttl, get_max_presign_ttl, MediaAccessScope, Library, Settings,
  verify_presign, signature, expiry, capped_ttl, get_max_presign_ttl, verify_scope_matches_path,
  video_matches, starts_with, ends_with, sanitize_scope_part, kept_in_scope, to_hex, hex_digit,
}
use vms_ai.MediaSigner.Links.{
  Accepted, verify_presign-Accepted, sanitized, verify_presign-signature,
}

-- A stand-in with 32 bytes, and one that prints a number as a row of ones.
abbrev library : Library
library = record {
  hmac_sha256 = λ key data_in. replicate 32 ((length key + length data_in) % 256);
  print_int = λ n. replicate (pos_part n + neg_part n) 49;
}

abbrev settings : Settings
settings = record {
  env_secret = none;
  auth_secret = bytes "secret";
  max_ttl_seconds = pos 600;
  allow_legacy_unsigned = false;
}

abbrev path : Text
path = bytes "/api/events/12/video"

abbrev scope : MediaAccessScope
scope = record {
  scope = bytes "event_video";
  camera_id = negsuc 0;
  resource_id = bytes "12";
  role = [];
}

ttl_is_capped : expiry settings (pos 1000) (pos 5000) ≡ pos 1600
unfolding expiry capped_ttl get_max_presign_ttl ◌+ℤ◌
ttl_is_capped = refl

hex : to_hex (0 ∷ 171 ∷ []) ≡ bytes "00ab"
unfolding to_hex hex_digit
hex = refl

in_scope : verify_scope_matches_path library path (sanitized scope) ≡ true
unfolding verify_scope_matches_path video_matches starts_with ends_with sanitize_scope_part
    kept_in_scope
in_scope = refl

before_expiry : pos 1100 ≤ℤ expiry settings (pos 1000) (pos 5000)
unfolding expiry capped_ttl get_max_presign_ttl ◌+ℤ◌
before_expiry = omega arith

verify_presign-presign_path_example :
    (sig : Text) × (presign_path library settings (pos 1000) path (pos 5000) scope
      ≡ link_text path (bytes "exp") (replicate 1600 49) (scope_fields library sig scope))
    × (verify_presign library settings (pos 1100) path (pos 1600) sig (sanitized scope) ≡ true)
    × (pos 1001 ≤ℤ pos 1600)
    × (pos 600 ≤ℤ pos 600)
unfolding expiry capped_ttl get_max_presign_ttl ◌+ℤ◌ ◌-ℤ◌
verify_presign-presign_path_example =
    verify_presign-presign_path library settings (pos 1000) (pos 1100) (pos 5000) path scope
      (λ key data_in. length-replicate 32 ((length key + length data_in) % 256)) (λ e. cc)
      (omega arith) (omega arith) before_expiry in_scope

passes :
    verify_presign library settings
      (pos 1100)
      path
      (expiry settings (pos 1000) (pos 5000))
      (signature library settings path (expiry settings (pos 1000) (pos 5000)) scope)
      (sanitized scope)
    ≡ true
passes =
    verify_presign-signature library settings (pos 1000) (pos 1100) (pos 5000) path scope
      (λ key data_in. length-replicate 32 ((length key + length data_in) % 256)) (λ e. cc)
      (omega arith) (omega arith) before_expiry in_scope

verify_presign-Accepted_example :
    Accepted library settings
      (pos 1100)
      path
      (expiry settings (pos 1000) (pos 5000))
      (signature library settings path (expiry settings (pos 1000) (pos 5000)) scope)
      (sanitized scope)
verify_presign-Accepted_example =
    verify_presign-Accepted library settings (pos 1100) path (expiry settings (pos 1000) (pos 5000))
      (signature library settings path (expiry settings (pos 1000) (pos 5000)) scope)
      (sanitized scope) passes

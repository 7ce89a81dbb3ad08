-- ===== src/MediaSigner/Links.antt =====
-- What a signed link gives access to.
use vms_ai.Prelude.{
  ℕ, ◌+◌, ◌≡◌, ◌≢◌, ◌⊎◌, inl, inr, refl, ap, ℤ, pos, ◌≤ℤ◌, ◌-ℤ◌, ltb_ℤ, leb_ℤ, +ℤ_parts, -ℤ_parts,
  true, false, ◌==◌, Bool-cases, [], ◌∷◌, length, if◌then◌else◌, Text, arith,
}
use vms_ai.MediaSigner.{
  get_media_signing_secret, MediaAccessScope, Library, Settings, to_hex, constant_time_equals,
  kept_in_scope, sanitize_scope_part, signing_payload, verify_scope_matches_path,
  get_max_presign_ttl, capped_ttl, signature, expiry, is_unscoped, legacy_signature, verify_presign,
}
use vms_ai.MediaSigner.Compare.{constant_time_equals_sound, constant_time_equals_refl}

-- What a link that is let through has shown.
pub record Accepted (l : Library) (cfg : Settings) (now : ℤ) (path : Text) (exp : ℤ) (sig : Text)
    (s : MediaAccessScope) : Type 0 where
  in_time : now ≤ℤ exp
  within_ttl : exp -ℤ now ≤ℤ get_max_presign_ttl cfg
  scope : verify_scope_matches_path l path s ≡ true
  signed :
      (sig ≡ signature l cfg path exp s)
      ⊎ (cfg.allow_legacy_unsigned ≡ true)
        × (is_unscoped s ≡ true)
        × (sig ≡ legacy_signature l cfg path exp)

-- verifyPresign lets a link through only until it expires, only where no more than the greatest time
-- to live is left, only to a path of its scope, and only with the signature of this path, expiry and
-- scope under the secret, or, for a link without any scope and where the settings allow it, with the
-- signature of path and expiry alone.
pub verify_presign-Accepted :
    (l : Library) (cfg : Settings) (now : ℤ) (path : Text) (exp : ℤ) (sig : Text)
    (s : MediaAccessScope)
    → verify_presign l cfg now path exp sig s ≡ true
    → Accepted l cfg now path exp sig s
unfolding verify_presign
verify_presign-Accepted l cfg now path exp sig s h = record {
  in_time = ground arith;
  within_ttl = ground arith;
  scope = ground arith;
  signed = ground (
    arith,
    constant_time_equals_sound sig (signature l cfg path exp s),
    constant_time_equals_sound sig (legacy_signature l cfg path exp),
  );
}

sanitize_twice : (v : Text) → sanitize_scope_part (sanitize_scope_part v) ≡ sanitize_scope_part v
unfolding sanitize_scope_part
sanitize_twice [] = refl
sanitize_twice (c ∷ v) = elim (Bool-cases (kept_in_scope c)) [
  | inl b ↦ keep c v b (sanitize_twice v)
  | inr b ↦ rw (b) (sanitize_twice v)
]
  where
    keep :
        (c : ℕ) (v : Text)
        → kept_in_scope c ≡ true
        → sanitize_scope_part (sanitize_scope_part v) ≡ sanitize_scope_part v
        → sanitize_scope_part
            (if kept_in_scope c then c ∷ sanitize_scope_part v else sanitize_scope_part v)
          ≡ (if kept_in_scope c then c ∷ sanitize_scope_part v else sanitize_scope_part v)
    keep c v b e = rw (b, b) (ap (λ r. c ∷ r) e)

-- The scope as the query of the link gives it back.
abbrev pub sanitized : MediaAccessScope → MediaAccessScope
sanitized s = record s {
  scope = sanitize_scope_part s.scope;
  resource_id = sanitize_scope_part s.resource_id;
  role = sanitize_scope_part s.role;
}

signature-sanitized :
    (l : Library) (cfg : Settings) (path : Text) (exp : ℤ) (s : MediaAccessScope)
    → signature l cfg path exp (sanitized s) ≡ signature l cfg path exp s
unfolding signature signing_payload
signature-sanitized l cfg path exp s =
    rw (sanitize_twice s.scope, sanitize_twice s.resource_id, sanitize_twice s.role) refl

length-to_hex : (s : Text) → length (to_hex s) ≡ length s + length s
unfolding to_hex
length-to_hex [] = omega arith
length-to_hex (c ∷ s) = omega (arith, length-to_hex s)

signature_some :
    (l : Library) (cfg : Settings) (path : Text) (exp : ℤ) (s : MediaAccessScope)
    → ((key data_in : Text) → length (l.hmac_sha256 key data_in) ≡ 32)
    → (length (signature l cfg path exp s) == 0) ≡ false
unfolding signature
signature_some l cfg path exp s hmac =
    let mac = l.hmac_sha256 (get_media_signing_secret cfg) (signing_payload l path exp s) in
    let size = hmac (get_media_signing_secret cfg) (signing_payload l path exp s) in
    ground (arith, length-to_hex mac, size)

max_ttl_positive : (cfg : Settings) → pos 1 ≤ℤ get_max_presign_ttl cfg
unfolding get_max_presign_ttl
max_ttl_positive cfg = ground arith

pub capped_ttl-bounds :
    (cfg : Settings) (ttl : ℤ)
    → (pos 1 ≤ℤ capped_ttl cfg ttl) × (capped_ttl cfg ttl ≤ℤ get_max_presign_ttl cfg)
unfolding capped_ttl
capped_ttl-bounds cfg ttl = ground (arith, max_ttl_positive cfg)

verify_presign_passes :
    (l : Library) (cfg : Settings) (now : ℤ) (path : Text) (exp : ℤ) (sig : Text)
    (s : MediaAccessScope)
    → (length path == 0) ≡ false
    → (length sig == 0) ≡ false
    → leb_ℤ exp (pos 0) ≡ false
    → ltb_ℤ exp now ≡ false
    → ltb_ℤ (get_max_presign_ttl cfg) (exp -ℤ now) ≡ false
    → verify_scope_matches_path l path s ≡ true
    → constant_time_equals sig (signature l cfg path exp s) ≡ true
    → verify_presign l cfg now path exp sig s ≡ true
unfolding verify_presign
verify_presign_passes l cfg now path exp sig s h1 h2 h3 h4 h5 h6 h7 = ground arith

some_length : (path : Text) → path ≢ [] → (length path == 0) ≡ false
some_length [] h = absurd (h refl)
some_length (c ∷ path) h = ground arith

-- The check of what presignPath signs, until it expires.
pub verify_presign-signature :
    (l : Library) (cfg : Settings) (now later ttl : ℤ) (path : Text) (s : MediaAccessScope)
    → ((key data_in : Text) → length (l.hmac_sha256 key data_in) ≡ 32)
    → path ≢ []
    → pos 0 ≤ℤ now
    → now ≤ℤ later
    → later ≤ℤ expiry cfg now ttl
    → verify_scope_matches_path l path (sanitized s) ≡ true
    → verify_presign l cfg later path
        (expiry cfg now ttl)
        (signature l cfg path (expiry cfg now ttl) s)
        (sanitized s)
      ≡ true
unfolding expiry
verify_presign-signature l cfg now later ttl path s hmac some_path h0 h1 h2 m =
    let exp = expiry cfg now ttl in
    let sig = signature l cfg path exp s in
    let (positive, capped) = capped_ttl-bounds cfg ttl in
    let sum = +ℤ_parts now (capped_ttl cfg ttl) in
    let left = -ℤ_parts exp later in
    verify_presign_passes l cfg later path exp sig (sanitized s) (some_length path some_path)
      (signature_some l cfg path exp s hmac) (ground (arith, positive, sum)) (ground arith)
      (ground (arith, capped, sum, left)) m
      (rw (signature-sanitized l cfg path exp s) (constant_time_equals_refl sig))

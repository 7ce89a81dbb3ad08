-- ===== src/Auth/Tokens.antt =====
-- What a token has shown when validateToken gives its user.
use vms_ai.Prelude.{
  ◌==◌, ◌≡◌, ◌⊎◌, inl, inr, refl, sym, ap, ◌∙◌, ℤ, pos, ◌||◌, Bool, true, false, not, Bool-cases,
  Option, none, some, [], ◌++◌, length, Text, bytes, text_beq, int_beq, int_beq_iff, arith,
}
use vms_ai.MediaSigner.{constant_time_equals}
use vms_ai.MediaSigner.Compare.{constant_time_equals_sound}
use vms_ai.Hash.Sha256.{hash}
use vms_ai.Auth.Numbers.{
  >>=-eq-some, guard-eq-some, some_injective, stoi, stoll, split_at_first, split_at_last,
  occurrences,
}
use vms_ai.Auth.Users.{User, AuthConfig, UserTable}
use vms_ai.Auth.Jwt.{
  Claims, JwtLibrary, issuer, string_claim, string_or, boolean_or, version_claim, checked,
  subject_id, user_of_claims, decode_access_token_jwt_user, decode_jwt_user_for_use,
}
use vms_ai.Auth.Validate.{
  active_user, validate_jwt, legacy_suffix, is_expired, validate_legacy, validate_token,
}

-- A JWT that jwt-cpp has verified for this use.
pub record IsVerified (l : JwtLibrary) (cfg : AuthConfig) (predicate : Text → Bool) (token : Text)
    (claims : Claims) : Type 0 where
  pub decoded : l.decode token ≡ some claims
  pub verified : l.verifies cfg.secret_key issuer token ≡ true
  pub token_use : Text
  pub claimed : string_or (bytes "token_use") (bytes "access") claims ≡ some token_use
  pub allowed : predicate token_use ≡ true

pub checked-IsVerified :
    (l : JwtLibrary) (cfg : AuthConfig) (predicate : Text → Bool) (token : Text) {c : Claims}
    → checked l cfg predicate token ≡ some c
    → IsVerified l cfg predicate token c
unfolding checked
checked-IsVerified l cfg predicate token {c} h =
    let (claims, decoded, h1) = >>=-eq-some (l.decode token) _ h in
    let (verified, h2) = guard-eq-some (l.verifies cfg.secret_key issuer token) _ h1 in
    let (token_use, claimed, h3) =
      >>=-eq-some (string_or (bytes "token_use") (bytes "access") claims) _ h2 in
    let (allowed, h4) = guard-eq-some (predicate token_use) _ h3 in
    let same : claims ≡ c = some_injective h4 in
    record {
      decoded = decoded ∙ h4;
      verified = verified;
      token_use = token_use;
      claimed = ap (λ d. string_or (bytes "token_use") (bytes "access") d) (sym same) ∙ claimed;
      allowed = allowed;
    }

abbrev pub for_access : Text → Bool
for_access u = length u == 0 || text_beq u (bytes "access")

-- The row is that of an active user.
pub record IsRow (found : Option User) (row : User) : Type 0 where
  pub found_row : found ≡ some row
  pub active : row.is_active ≡ true

active_user-IsRow :
    (found : Option User) {row : User} → active_user found ≡ some row → IsRow found row
unfolding active_user
active_user-IsRow none h = cc
active_user-IsRow (some u) {row} h = record { found_row = ground arith; active = ground arith }

-- What a JWT has shown.
pub record JwtShows (l : JwtLibrary) (cfg : AuthConfig) (db : UserTable) (token : Text) (u : User)
    : Type 0 where
  pub claims : Claims
  pub verified : IsVerified l cfg for_access token claims
  pub subject : subject_id claims ≡ some u.id
  pub row : User
  pub is_row : IsRow (db.first u.id) row
  pub stated : version_claim claims ≡ some row.token_version
  pub version : row.token_version ≡ u.token_version
  pub role : u.role_id ≡ row.role_id
  pub role_name : u.role_name ≡ row.role_name

-- What an older token has shown.
pub record LegacyShows (cfg : AuthConfig) (db : UserTable) (now_ms : ℤ) (token : Text) (u : User)
    : Type 0 where
  pub raw : Text
  pub signed : split_at_last b'.' token ≡ some (raw, hash (raw ++ cfg.secret_key))
  pub suffix : Text
  pub prefixed : legacy_suffix raw ≡ some suffix
  pub parts : Text × Text
  pub split : split_at_first b'-' suffix ≡ some parts
  pub user_id : ℤ
  pub numbered : stoi parts.0 ≡ some user_id
  pub row : User
  pub is_row : IsRow (db.first user_id) row
  pub version : row.token_version ≡ pos 0
  pub token_ts : ℤ
  pub timed : stoll parts.1 ≡ some token_ts
  pub fresh : is_expired cfg now_ms token_ts ≡ false
  pub again : IsRow (db.again user_id) u

user_of_claims-subject :
    (claims : Claims) {u : User} → user_of_claims claims ≡ some u → subject_id claims ≡ some u.id
unfolding user_of_claims
user_of_claims-subject claims {u} h =
    let (id, e, h1) = >>=-eq-some (subject_id claims) _ h in
    let (username, _, h2) = >>=-eq-some (string_claim (bytes "username") claims) _ h1 in
    let (role, _, h3) = >>=-eq-some (string_claim (bytes "role_id") claims) _ h2 in
    let (role_id, _, h4) = >>=-eq-some (stoi role) _ h3 in
    let (role_name, _, h5) = >>=-eq-some (string_or (bytes "role_name") [] claims) _ h4 in
    let (active, _, h6) = >>=-eq-some (boolean_or (bytes "is_active") true claims) _ h5 in
    let (two_factor, _, h7) =
      >>=-eq-some (boolean_or (bytes "two_factor_enabled") false claims) _ h6 in
    let (ver, _, h8) = >>=-eq-some (version_claim claims) _ h7 in
    let (_, h9) = guard-eq-some active _ h8 in e ∙ ap (λ (v : User). some v.id) (some_injective h9)

user_of_claims-version :
    (claims : Claims) {u : User}
    → user_of_claims claims ≡ some u
    → version_claim claims ≡ some u.token_version
unfolding user_of_claims
user_of_claims-version claims {u} h =
    let (id, _, h1) = >>=-eq-some (subject_id claims) _ h in
    let (username, _, h2) = >>=-eq-some (string_claim (bytes "username") claims) _ h1 in
    let (role, _, h3) = >>=-eq-some (string_claim (bytes "role_id") claims) _ h2 in
    let (role_id, _, h4) = >>=-eq-some (stoi role) _ h3 in
    let (role_name, _, h5) = >>=-eq-some (string_or (bytes "role_name") [] claims) _ h4 in
    let (active, _, h6) = >>=-eq-some (boolean_or (bytes "is_active") true claims) _ h5 in
    let (two_factor, _, h7) =
      >>=-eq-some (boolean_or (bytes "two_factor_enabled") false claims) _ h6 in
    let (ver, e, h8) = >>=-eq-some (version_claim claims) _ h7 in
    let (_, h9) = guard-eq-some active _ h8 in
    e ∙ ap (λ (v : User). some v.token_version) (some_injective h9)

validate_jwt-JwtShows :
    (l : JwtLibrary) (cfg : AuthConfig) (db : UserTable) (token : Text) {u : User}
    → validate_jwt l cfg db token ≡ some u
    → JwtShows l cfg db token u
unfolding validate_jwt decode_access_token_jwt_user decode_jwt_user_for_use
validate_jwt-JwtShows l cfg db token {u} h =
    let (jwt_user, e, h1) = >>=-eq-some (decode_access_token_jwt_user l cfg token) _ h in
    let (claims, c, from_claims) = >>=-eq-some (checked l cfg for_access token) _ e in
    let (row, r, h2) = >>=-eq-some (active_user (db.first jwt_user.id)) _ h1 in
    let (v, h3) = guard-eq-some (int_beq row.token_version jwt_user.token_version) _ h2 in
    let same = some_injective h3 in
    let same_id : jwt_user.id ≡ u.id = ap (λ (w : User). w.id) same in
    record {
      claims = claims;
      verified = checked-IsVerified l cfg for_access token c;
      subject = user_of_claims-subject claims from_claims ∙ ap (λ (i : ℤ). some i) same_id;
      row = row;
      is_row =
          active_user-IsRow (db.first u.id)
            (ap (λ (i : ℤ). active_user (db.first i)) (sym same_id) ∙ r);
      stated =
          user_of_claims-version claims from_claims
          ∙ ap (λ (i : ℤ). some i)
              (sym ((int_beq_iff row.token_version jwt_user.token_version).0 v));
      version =
          (int_beq_iff row.token_version jwt_user.token_version).0 v
          ∙ ap (λ (w : User). w.token_version) same;
      role = ap (λ (w : User). w.role_id) (sym same);
      role_name = ap (λ (w : User). w.role_name) (sym same);
    }

validate_legacy-LegacyShows :
    (cfg : AuthConfig) (db : UserTable) (now_ms : ℤ) (token : Text) {u : User}
    → validate_legacy cfg db now_ms token ≡ some u
    → LegacyShows cfg db now_ms token u
unfolding validate_legacy
validate_legacy-LegacyShows cfg db now_ms token {u} h =
    let ((raw, sig), e, h1) = >>=-eq-some (split_at_last b'.' token) _ h in
    let (signed, h2) =
      guard-eq-some (constant_time_equals sig (hash (raw ++ cfg.secret_key))) _ h1 in
    let (suffix, prefixed, h3) = >>=-eq-some (legacy_suffix raw) _ h2 in
    let (parts, split, h4) = >>=-eq-some (split_at_first b'-' suffix) _ h3 in
    let (user_id, numbered, h5) = >>=-eq-some (stoi parts.0) _ h4 in
    let (row, r, h6) = >>=-eq-some (active_user (db.first user_id)) _ h5 in
    let (v, h7) = guard-eq-some (int_beq row.token_version (pos 0)) _ h6 in
    let (token_ts, timed, h8) = >>=-eq-some (stoll parts.1) _ h7 in
    let (fresh, h9) = guard-eq-some (not (is_expired cfg now_ms token_ts)) _ h8 in
    record {
      raw = raw;
      signed =
          e
          ∙ ap (λ (s : Text). some (raw, s))
              (constant_time_equals_sound sig (hash (raw ++ cfg.secret_key)) signed);
      suffix = suffix;
      prefixed = prefixed;
      parts = parts;
      split = split;
      user_id = user_id;
      numbered = numbered;
      row = row;
      is_row = active_user-IsRow (db.first user_id) r;
      version = (int_beq_iff row.token_version (pos 0)).0 v;
      token_ts = token_ts;
      timed = timed;
      fresh = not_true fresh;
      again = active_user-IsRow (db.again user_id) h9;
    }
  where
    not_true : {b : Bool} → not b ≡ true → b ≡ false
    not_true {b = true} h = cc
    not_true {b = false} h = refl

-- validateToken gives a user only to one of two kinds of tokens. A JWT is verified under the secret
-- and the issuer for the use "access" (or no use), and its subject is a user that the table has as
-- active, with the token version that the claims state, which the result has too; the role is the table's and not the token's. An older
-- token ends with the SHA-256 digest of what stands before its last dot and the secret, names by its
-- number a user that the table has as active and of token version 0, is not older than the time to
-- live, and gives the row of an active user that the table has for that number when asked again.
pub validate_token_shows :
    (l : JwtLibrary) (cfg : AuthConfig) (db : UserTable) (now_ms : ℤ) (token : Text) {u : User}
    → validate_token l cfg db now_ms token ≡ some u
    → JwtShows l cfg db token u ⊎ LegacyShows cfg db now_ms token u
unfolding validate_token
validate_token_shows l cfg db now_ms token h = elim (Bool-cases (occurrences b'.' token == 2)) [
  | inl b ↦ inl (validate_jwt-JwtShows l cfg db token (rw b at h))
  | inr b ↦ inr (validate_legacy-LegacyShows cfg db now_ms token (rw b at h))
]

-- ===== src/Auth/Issue/Readings.antt =====
-- What is read of a token that was made.
use vms_ai.Prelude.{
  ◌≡◌, refl, ◌==◌, ◌||◌, not, length, ℤ, ltb_ℤ, Bool, true, false, ◌∷◌, none, some, [], lookup,
  insert, ap, ◌∙◌, text_eq, Text, bytes, Bool-cases, inl, inr,
}
use vms_ai.Auth.Numbers.{◌>>◌, guard, occurrences}
use vms_ai.Auth.Users.{User, blank_user, AuthConfig}
use vms_ai.Auth.Jwt.{
  Claims, string, date, issuer, JwtLibrary, string_claim, string_or, boolean_or, version_claim,
  subject_id, user_of_claims, ip_mismatch, ip_allowed, checked,
}
use vms_ai.Auth.Issue.{to_string, user_claims, with_profile, with_ip}
use vms_ai.Auth.Issue.Addresses.{lets_in, ip_mismatch-plain}
use vms_ai.Auth.Issue.Numerals.{IsInt, stoi-to_string, to_string-cons}

-- jwt-cpp, asked at a time, reads the claims that were signed, and verifies the token under its key where
-- it has the issuer that is asked for and its times allow it; a token has three parts.
pub record ReadsBack (l : JwtLibrary) (later : ℤ) (key token : Text) (claims : Claims)
    : Type 0 where
  pub decoded : l.decode token ≡ some claims
  pub verified :
      (who : Text) (from until : ℤ)
      → lookup (bytes "iss") claims ≡ some (string who)
      → lookup (bytes "iat") claims ≡ some (date from)
      → lookup (bytes "exp") claims ≡ some (date until)
      → ltb_ℤ later from ≡ false
      → ltb_ℤ later until ≡ true
      → l.verifies key who token ≡ true
  pub parts : occurrences b'.' token ≡ 2

-- The numbers of the user are ints.
pub record HasInts (user : User) : Type 0 where
  pub id : IsInt user.id
  pub role_id : IsInt user.role_id
  pub token_version : IsInt user.token_version

-- What a token carries of its user.
abbrev pub carried : User → User
carried user = record blank_user {
  id = user.id;
  username = user.username;
  role_id = user.role_id;
  is_active = true;
  token_version = user.token_version;
}

-- The claims that signUserToken writes of itself.
pub record Stamped (jti : Text) (now exp : ℤ) (token_use : Text) (c : Claims) : Type 0 where
  pub iss : lookup (bytes "iss") c ≡ some (string issuer)
  pub iat : lookup (bytes "iat") c ≡ some (date now)
  pub until : lookup (bytes "exp") c ≡ some (date exp)
  pub used : string_or (bytes "token_use") (bytes "access") c ≡ some token_use
  pub named : string_claim (bytes "jti") c ≡ some jti

-- In its time a token gets as far as the check of its use.
pub checked-Stamped :
    (l : JwtLibrary) (cfg : AuthConfig) (later : ℤ) (token : Text) (c : Claims) (jti : Text)
    (now exp : ℤ) (token_use : Text) (predicate : Text → Bool)
    → ReadsBack l later cfg.secret_key token c
    → Stamped jti now exp token_use c
    → ltb_ℤ later now ≡ false
    → ltb_ℤ later exp ≡ true
    → checked l cfg predicate token ≡ (guard (predicate token_use) >> some c)
unfolding checked
checked-Stamped l cfg later token c jti now exp token_use predicate back k from early =
    rw (back.decoded, back.verified issuer now exp k.iss k.iat k.until from early, k.used) refl

-- The claims say this of the user.
pub record Carries (user : User) (name : Text) (active two_factor : Bool) (c : Claims)
    : Type 0 where
  pub sub : lookup (bytes "sub") c ≡ some (string (to_string user.id))
  pub username : lookup (bytes "username") c ≡ some (string user.username)
  pub role : lookup (bytes "role_id") c ≡ some (string (to_string user.role_id))
  pub version : lookup (bytes "ver") c ≡ some (string (to_string user.token_version))
  pub named : string_or (bytes "role_name") [] c ≡ some name
  pub activity : boolean_or (bytes "is_active") true c ≡ some active
  pub second : boolean_or (bytes "two_factor_enabled") false c ≡ some two_factor

string_claim-string :
    (name s : Text) (c : Claims) → lookup name c ≡ some (string s) → string_claim name c ≡ some s
unfolding string_claim
string_claim-string name s c h = rw (h, string_claim) refl

module _ (user : User) (name : Text) (active two_factor : Bool) (c : Claims)
    (k : Carries user name active two_factor c) (ints : HasInts user) where
  pub subject_id-carried : subject_id c ≡ some user.id
  unfolding subject_id
  subject_id-carried =
      rw (string_claim-string (bytes "sub") (to_string user.id) c k.sub, to_string-cons user.id)
        (stoi-to_string user.id ints.id)

  version_claim-carried : version_claim c ≡ some user.token_version
  unfolding version_claim
  version_claim-carried =
      rw (k.version, version_claim) (stoi-to_string user.token_version ints.token_version)

  pub user_of_claims-carried : user_of_claims c ≡ (
      guard active
      >> some (record (carried user) {
        role_name = name;
        is_active = active;
        two_factor_enabled = two_factor;
      }))
  unfolding user_of_claims
  user_of_claims-carried =
      rw
        (
          subject_id-carried,
          string_claim-string (bytes "username") user.username c k.username,
          string_claim-string (bytes "role_id") (to_string user.role_id) c k.role,
          stoi-to_string user.role_id ints.role_id,
          k.named,
          k.activity,
          k.second,
          version_claim-carried,
        )
        refl

module _ (user : User) (jti : Text) (now exp : ℤ) (token_use : Text) where
  abbrev claims : Claims
  claims = user_claims user jti now exp token_use

  pub profile-Stamped : Stamped jti now exp token_use (with_profile user claims)
  unfolding with_profile user_claims lookup insert string_or string_claim
  profile-Stamped = record { iss = refl; iat = refl; until = refl; used = refl; named = refl }

  pub ip-Stamped : (ip : Text) → Stamped jti now exp token_use (with_ip ip claims)
  unfolding with_ip user_claims lookup insert string_or string_claim
  ip-Stamped [] = record { iss = refl; iat = refl; until = refl; used = refl; named = refl }
  ip-Stamped (x ∷ ip) = record { iss = refl; iat = refl; until = refl; used = refl; named = refl }

  pub profile-Carries :
      Carries user user.role_name user.is_active user.two_factor_enabled (with_profile user claims)
  unfolding with_profile user_claims lookup insert string_or boolean_or
  profile-Carries = record {
    sub = refl;
    username = refl;
    role = refl;
    version = refl;
    named = refl;
    activity = refl;
    second = refl;
  }

  pub ip-Carries : (ip : Text) → Carries user [] true false (with_ip ip claims)
  unfolding with_ip user_claims lookup insert string_or boolean_or
  ip-Carries [] = record {
    sub = refl;
    username = refl;
    role = refl;
    version = refl;
    named = refl;
    activity = refl;
    second = refl;
  }
  ip-Carries (x ∷ ip) = record {
    sub = refl;
    username = refl;
    role = refl;
    version = refl;
    named = refl;
    activity = refl;
    second = refl;
  }

ip_allowed-none :
    (c : Claims) (peer_ip : Text) → lookup (bytes "ip") c ≡ none → ip_allowed c peer_ip ≡ some tt
unfolding ip_allowed
ip_allowed-none c peer_ip e = elim (Bool-cases (length peer_ip == 0)) [
  | inl b ↦ rw b refl
  | inr b ↦ rw (b, e) refl
]

ip_allowed-some :
    (c : Claims) (ip peer_ip : Text)
    → lookup (bytes "ip") c ≡ some (string ip)
    → ip_allowed c peer_ip ≡ guard (length peer_ip == 0 || not (ip_mismatch ip peer_ip))
unfolding ip_allowed
ip_allowed-some c ip peer_ip e = elim (Bool-cases (length peer_ip == 0)) [
  | inl b ↦ rw b refl
  | inr b ↦ rw (b, e) refl
]

pub ip_allowed-with_ip :
    (user : User) (jti : Text) (now exp : ℤ) (token_use ip peer_ip : Text)
    → ip_allowed (with_ip ip (user_claims user jti now exp token_use)) peer_ip
      ≡ guard (lets_in ip peer_ip)
unfolding with_ip user_claims lookup insert
ip_allowed-with_ip user jti now exp token_use [] peer_ip = ip_allowed-none _ peer_ip refl
ip_allowed-with_ip user jti now exp token_use (x ∷ ip) peer_ip =
    ip_allowed-some _ (x ∷ ip) peer_ip refl
    ∙ ap (λ b. guard (length peer_ip == 0 || b))
        (ap not (ip_mismatch-plain (x ∷ ip) peer_ip) ∙ not_twice _)
  where
    not_twice : (b : Bool) → not (not b) ≡ b
    not_twice true = refl
    not_twice false = refl

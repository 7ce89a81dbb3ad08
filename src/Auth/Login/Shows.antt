-- ===== src/Auth/Login/Shows.antt =====
-- What an access token that is given out shows.
use vms_ai.Prelude.{
  ◌≤◌, ◌==◌, ◌≡◌, refl, sym, subst, ◌∙◌, ◌⊎◌, inl, inr, ℤ, pos, ◌+ℤ◌, Bool, true, false, ◌&&◌,
  Bool-cases, Option, none, some, List, [], ◌∷◌, length, Text, arith,
}
use vms_ai.RateLimiter.{RateLimiter, check_login}
use vms_ai.Totp.{verify_code}
use vms_ai.MediaSigner.{starts_with}
use vms_ai.Auth.Numbers.{some_injective}
use vms_ai.Auth.Users.{User}
use vms_ai.Auth.Issue.{create_access_token_jwt, sign_user_token, built, with_profile, user_claims}
use vms_ai.Auth.Jwt.{verify_two_factor_temp_token_jwt, verify_password_change_temp_token_jwt}
use vms_ai.Auth.Passwords.{
  is_argon2_hash, verify_password_argon2, verify_user_password, hash_password_with_salt,
}
use vms_ai.Auth.Login.{
  Desk, LoginReply, Write, logged_in, access_token, must_change_password, rehashed, with_hash,
  local_match, reply_to, local_reply, ldap_user, ldap_match, ldap_reply, with_match, checked_login,
  login,
}
use vms_ai.Auth.Login.Factors.{verify_second_factor, change_password_on_login}

-- A request to one of the three handlers; a login with the limiter that it finds.
pub data Ask : Type 0 where
  logs_in : Text → Text → Text → RateLimiter → Ask
  sends_code : Text → Text → Ask
  changes_password : Text → Text → Ask

unfoldable pub answer : Desk → Ask → LoginReply
answer d (logs_in ip username password s) = (login d ip username password s).2
answer d (sends_code code temp_token) = (verify_second_factor d code temp_token).1
answer d (changes_password temp_token new_pass) = (change_password_on_login d temp_token new_pass).2

-- A password that fits, of a user who needs neither a second factor nor a new password.
pub record FitsHere (d : Desk) (username password token : Text) : Type 0 where
  pub user : User
  pub found : d.by_username username ≡ some user
  pub fits : verify_user_password d.argon2 password user ≡ true
  pub one_factor : user.two_factor_enabled ≡ false
  pub kept : must_change_password d user ≡ false
  pub given : token ≡ access_token d user

-- A password that the directory accepts, of a user who is in the table or is created.
pub record FitsDirectory (d : Desk) (username password token : Text) : Type 0 where
  pub user : User
  pub accepts : Text → Text → Bool
  pub enabled : d.ldap ≡ some accepts
  pub fits : accepts username password ≡ true
  pub found :
      (d.by_username username ≡ some user)
      ⊎ ((d.by_username username ≡ none) × (d.by_username_again username ≡ some user))
  pub given : token ≡ access_token d user

pub record FitsCode (d : Desk) (code temp_token token : Text) : Type 0 where
  pub id : ℤ
  pub user : User
  pub temporary : verify_two_factor_temp_token_jwt d.jwt d.auth temp_token ≡ some id
  pub found : d.by_id id ≡ some user
  pub enabled : user.two_factor_enabled ≡ true
  pub fits : verify_code user.two_factor_secret code (pos 1) d.unix_time ≡ true
  pub kept : must_change_password d user ≡ false
  pub given : token ≡ access_token d user

pub record FitsChange (d : Desk) (temp_token new_pass token : Text) : Type 0 where
  pub id : ℤ
  pub user : User
  pub h : Text
  pub salt : Text
  pub temporary : verify_password_change_temp_token_jwt d.jwt d.auth temp_token ≡ some id
  pub found : d.by_id id ≡ some user
  pub longer : 8 ≤ length new_pass
  pub shorter : length new_pass ≤ 256
  pub differs : verify_user_password d.argon2 new_pass user ≡ false
  pub hashed : hash_password_with_salt d.argon2 d.salt new_pass user.username ≡ some (h, salt)
  pub given :
      token
      ≡ access_token d (record user {
        token_version = user.token_version +ℤ pos 1;
        password_hash = h;
        salt = salt;
      })

abbrev pub Shows : Desk → Ask → Text → Type 0
Shows d (logs_in ip username password s) token =
    ((check_login ip username d.clock s).1 ≡ [])
    × (FitsHere d username password token ⊎ FitsDirectory d username password token)
Shows d (sends_code code temp_token) token = FitsCode d code temp_token token
Shows d (changes_password temp_token new_pass) token = FitsChange d temp_token new_pass token

-- Nothing that matters below is changed by a new hash.
record IsLike (d : Desk) (user found : User) : Type 0 where
  pub token : access_token d user ≡ access_token d found
  pub factor : user.two_factor_enabled ≡ found.two_factor_enabled
  pub change : must_change_password d user ≡ must_change_password d found

with_hash-IsLike :
    (d : Desk) (found : User) (o : Option (Text × Text)) → IsLike d (with_hash d found o).0 found
unfolding with_hash access_token create_access_token_jwt sign_user_token built with_profile
    user_claims must_change_password
with_hash-IsLike d found none = record { token = refl; factor = refl; change = refl }
with_hash-IsLike d found (some (h, salt)) = record { token = refl; factor = refl; change = refl }

length-argon2 : (h : Text) → is_argon2_hash h ≡ true → (length h == 0) ≡ false
unfolding is_argon2_hash starts_with
length-argon2 [] a = cc
length-argon2 (c ∷ h) a = ground arith

-- The first check of a login is part of the second.
fits_argon2 :
    (d : Desk) (password : Text) (user : User)
    → (is_argon2_hash user.password_hash
        && verify_password_argon2 d.argon2 password user.password_hash)
      ≡ true
    → verify_user_password d.argon2 password user ≡ true
unfolding verify_user_password
fits_argon2 d password user h = elim (Bool-cases (is_argon2_hash user.password_hash)) [
  | inl b ↦ rw (length-argon2 user.password_hash b, b) (rw b at h)
  | inr b ↦ let bad = rw b at h in cc
]

local_match-some :
    (d : Desk) (password : Text) (o : Option User) (m : User × List Write)
    → local_match d password o ≡ some m
    → (found : User) × (o ≡ some found)
      × (verify_user_password d.argon2 password found ≡ true)
      × IsLike d m.0 found
unfolding local_match rehashed
local_match-some d password none m h = cc
local_match-some d password (some found) m h =
    elim (Bool-cases (
      is_argon2_hash found.password_hash
      && verify_password_argon2 d.argon2 password found.password_hash)) [
        | inl b ↦ (
          found,
          refl,
          fits_argon2 d password found b,
          subst (λ m'. IsLike d m'.0 found) (some_injective (rw b at h))
              (record { token = refl; factor = refl; change = refl }),
        )
        | inr b ↦ elim (Bool-cases (verify_user_password d.argon2 password found)) [
          | inl v ↦ (
            found,
            refl,
            v,
            subst (λ m'. IsLike d m'.0 found) (some_injective (rw (b, v) at h))
                (with_hash-IsLike d found
                  (hash_password_with_salt d.argon2 d.salt password found.username)),
          )
          | inr v ↦ let bad = rw (b, v) at h in cc
        ]
      ]

pub logged_in_injective : {a b : Text} → logged_in a ≡ logged_in b → a ≡ b
logged_in_injective h = cc

reply_to-logged_in :
    (d : Desk) (user : User) (writes : List Write) (two_factor must_change : Bool) (token : Text)
    → (reply_to d user writes two_factor must_change).1 ≡ logged_in token
    → (two_factor ≡ false) × (must_change ≡ false) × (token ≡ access_token d user)
unfolding reply_to
reply_to-logged_in d user writes true must_change token h = cc
reply_to-logged_in d user writes false true token h = cc
reply_to-logged_in d user writes false false token h = (refl, refl, sym (logged_in_injective h))

ldap_match-some :
    (d : Desk) (ldap : Option (Text → Text → Bool)) (username password : Text) (o : Option User)
    (user : User)
    → (ldap_match d ldap username password o).0 ≡ some user
    → (accepts : Text → Text → Bool) × (ldap ≡ some accepts)
      × (accepts username password ≡ true)
      × ((o ≡ some user) ⊎ ((o ≡ none) × (d.by_username_again username ≡ some user)))
unfolding ldap_match ldap_user
ldap_match-some d none username password o user h = cc
ldap_match-some d (some accepts) username password none user h =
    elim (Bool-cases (accepts username password)) [
      | inl b ↦ (accepts, refl, b, inr (refl, rw b at h))
      | inr b ↦ let bad = rw b at h in cc
    ]
ldap_match-some d (some accepts) username password (some found) user h =
    elim (Bool-cases (accepts username password)) [
      | inl b ↦ (accepts, refl, b, inl (rw b at h))
      | inr b ↦ let bad = rw b at h in cc
    ]

ldap_reply-logged_in :
    (d : Desk) (ip username : Text) (s : RateLimiter) (found : Option User × List Write)
    (token : Text)
    → (ldap_reply d ip username s found).2 ≡ logged_in token
    → (user : User) × (found.0 ≡ some user) × (token ≡ access_token d user)
unfolding ldap_reply
ldap_reply-logged_in d ip username s (none, writes) token h = cc
ldap_reply-logged_in d ip username s (some user, writes) token h =
    (user, refl, sym (logged_in_injective h))

with_match-Fits :
    (d : Desk) (ip username password : Text) (s : RateLimiter) (m : Option (User × List Write))
    (token : Text)
    → local_match d password (d.by_username username) ≡ m
    → (with_match d ip username password s m).2 ≡ logged_in token
    → FitsHere d username password token ⊎ FitsDirectory d username password token
unfolding with_match local_reply
with_match-Fits d ip username password s none token e h =
    let (user, found, given) =
      ldap_reply-logged_in d ip username s
        (ldap_match d d.ldap username password (d.by_username username)) token h in
    let (accepts, enabled, fits, origin) =
      ldap_match-some d d.ldap username password (d.by_username username) user found in
    inr (record {
      user = user;
      accepts = accepts;
      enabled = enabled;
      fits = fits;
      found = origin;
      given = given;
    })
with_match-Fits d ip username password s (some (user, writes)) token e h =
    let (found, here, fits, like) =
      local_match-some d password (d.by_username username) (user, writes) e in
    let (one, kept, given) =
      reply_to-logged_in d user writes user.two_factor_enabled (must_change_password d user) token
        h in
    inl (record {
      user = found;
      found = here;
      fits = fits;
      one_factor = sym like.factor ∙ one;
      kept = sym like.change ∙ kept;
      given = given ∙ like.token;
    })

pub checked_login-Fits :
    (d : Desk) (ip username password : Text) (r : RateLimiter × Text) (token : Text)
    → (checked_login d ip username password r).2 ≡ logged_in token
    → (r.1 ≡ []) × (FitsHere d username password token ⊎ FitsDirectory d username password token)
unfolding checked_login
checked_login-Fits d ip username password (s, []) token h = (
  refl,
  with_match-Fits d ip username password s (local_match d password (d.by_username username)) token
      refl h,
)
checked_login-Fits d ip username password (s, c ∷ message) token h = cc

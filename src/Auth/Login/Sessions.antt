-- ===== src/Auth/Login/Sessions.antt =====
-- No handler gives out an access token without what it is there to see.
use vms_ai.Prelude.{
  ◌≤◌, ◌==◌, ltb, ◌≡◌, refl, sym, inl, inr, ℤ, pos, ◌+ℤ◌, Bool, true, false, ◌&&◌, ◌||◌, Bool-cases,
  Option, Option-cases, none, some, length, Text, arith,
}
use vms_ai.RateLimiter.{RateLimiter, check_login}
use vms_ai.Totp.{verify_code}
use vms_ai.Auth.Users.{User}
use vms_ai.Auth.Jwt.{verify_two_factor_temp_token_jwt, verify_password_change_temp_token_jwt}
use vms_ai.Auth.Passwords.{verify_user_password, hash_password_with_salt}
use vms_ai.Auth.Login.{
  Desk, logged_in, access_token, must_change_password, is_safe_credential, malformed,
  well_formed_login, login,
}
use vms_ai.Auth.Login.Factors.{
  code_reply, second_reply, verify_second_factor, stored_reply, changed, change_of,
  change_password_on_login,
}
use vms_ai.Auth.Login.Shows.{
  Ask, logs_in, sends_code, changes_password, answer, FitsCode, FitsChange, Shows,
  logged_in_injective, checked_login-Fits,
}

well_formed_login-Shows :
    (d : Desk) (ip username password : Text) (s : RateLimiter) (m : Option Text) (token : Text)
    → (well_formed_login d ip username password s m).2 ≡ logged_in token
    → Shows d (logs_in ip username password s) token
unfolding well_formed_login
well_formed_login-Shows d ip username password s (some message) token h = cc
well_formed_login-Shows d ip username password s none token h =
    checked_login-Fits d ip username password (check_login ip username d.clock s) token h

code_reply-logged_in :
    (d : Desk) (user : User) (must_change : Bool) (token : Text)
    → (code_reply d user must_change).1 ≡ logged_in token
    → (must_change ≡ false) × (token ≡ access_token d user)
unfolding code_reply
code_reply-logged_in d user true token h = cc
code_reply-logged_in d user false token h = (refl, sym (logged_in_injective h))

second_reply-FitsCode :
    (d : Desk) (code temp_token token : Text) (id : ℤ) (o : Option User)
    → verify_two_factor_temp_token_jwt d.jwt d.auth temp_token ≡ some id
    → d.by_id id ≡ o
    → (second_reply d code o).1 ≡ logged_in token
    → FitsCode d code temp_token token
unfolding second_reply
second_reply-FitsCode d code temp_token token id none t e h = cc
second_reply-FitsCode d code temp_token token id (some user) t e h =
    elim (Bool-cases
      (user.two_factor_enabled && verify_code user.two_factor_secret code (pos 1) d.unix_time)) [
        | inr b ↦ let bad = rw b at h in cc
        | inl b ↦
            let (kept, given) =
              code_reply-logged_in d user (must_change_password d user) token (rw b at h) in
            record {
              id = id;
              user = user;
              temporary = t;
              found = e;
              enabled = ground arith;
              fits = ground arith;
              kept = kept;
              given = given;
            }
      ]

code-Shows :
    (d : Desk) (code temp_token token : Text)
    → (verify_second_factor d code temp_token).1 ≡ logged_in token
    → FitsCode d code temp_token token
unfolding verify_second_factor
code-Shows d code temp_token token h = elim (Bool-cases (length code == 0)) [
  | inl a ↦ let bad = rw a at h in cc
  | inr a ↦ elim (Bool-cases (length temp_token == 0)) [
    | inl b ↦ let bad = rw (a, b) at h in cc
    | inr b ↦ elim (Bool-cases (is_safe_credential code 16)) [
      | inr c ↦ let bad = rw (a, b, c) at h in cc
      | inl c ↦ elim (Option-cases (verify_two_factor_temp_token_jwt d.jwt d.auth temp_token)) [
        | inl t ↦ let bad = rw (a, b, c, t) at h in cc
        | inr (id, t) ↦
            second_reply-FitsCode d code temp_token token id (d.by_id id) t refl
              (rw (a, b, c, t) at h)
      ]
    ]
  ]
]

stored_reply-logged_in :
    (d : Desk) (user : User) (h salt : Text) (stored : Bool) (token : Text)
    → (stored_reply d user h salt stored).2 ≡ logged_in token
    → token
      ≡ access_token d (record user {
        token_version = user.token_version +ℤ pos 1;
        password_hash = h;
        salt = salt;
      })
unfolding stored_reply
stored_reply-logged_in d user h salt false token k = cc
stored_reply-logged_in d user h salt true token k = sym (logged_in_injective k)

changed-logged_in :
    (d : Desk) (user : User) (o : Option (Text × Text)) (token : Text)
    → (changed d user o).2 ≡ logged_in token
    → (h : Text) × (salt : Text) × (o ≡ some (h, salt))
      × (token
          ≡ access_token d (record user {
            token_version = user.token_version +ℤ pos 1;
            password_hash = h;
            salt = salt;
          }))
unfolding changed
changed-logged_in d user none token k = cc
changed-logged_in d user (some (h, salt)) token k =
    (h, salt, refl, stored_reply-logged_in d user h salt d.can_store token k)

change_of-FitsChange :
    (d : Desk) (temp_token new_pass token : Text) (id : ℤ) (o : Option User)
    → verify_password_change_temp_token_jwt d.jwt d.auth temp_token ≡ some id
    → d.by_id id ≡ o
    → 8 ≤ length new_pass
    → length new_pass ≤ 256
    → (change_of d new_pass o).2 ≡ logged_in token
    → FitsChange d temp_token new_pass token
unfolding change_of
change_of-FitsChange d temp_token new_pass token id none t e low high k = cc
change_of-FitsChange d temp_token new_pass token id (some user) t e low high k =
    elim (Bool-cases (verify_user_password d.argon2 new_pass user)) [
      | inl b ↦ let bad = rw b at k in cc
      | inr b ↦
          let (h, salt, hashed, given) =
            changed-logged_in d user
              (hash_password_with_salt d.argon2 d.salt new_pass user.username) token (rw b at k) in
          record {
            id = id;
            user = user;
            h = h;
            salt = salt;
            temporary = t;
            found = e;
            longer = low;
            shorter = high;
            differs = b;
            hashed = hashed;
            given = given;
          }
    ]

change-Shows :
    (d : Desk) (temp_token new_pass token : Text)
    → (change_password_on_login d temp_token new_pass).2 ≡ logged_in token
    → FitsChange d temp_token new_pass token
unfolding change_password_on_login
change-Shows d temp_token new_pass token k = elim (Bool-cases (length temp_token == 0)) [
  | inl a ↦ let bad = rw a at k in cc
  | inr a ↦ elim (Bool-cases (ltb (length new_pass) 8 || ltb 256 (length new_pass))) [
    | inl b ↦ let bad = rw (a, b) at k in cc
    | inr b ↦ elim (Option-cases (verify_password_change_temp_token_jwt d.jwt d.auth temp_token)) [
      | inl t ↦ let bad = rw (a, b, t) at k in cc
      | inr (id, t) ↦
          change_of-FitsChange d temp_token new_pass token id (d.by_id id) t refl (ground arith)
            (ground arith) (rw (a, b, t) at k)
    ]
  ]
]

-- A handler answers with an access token only in these cases. Login: the limiter lets the request
-- through, and the password is that of the user in the table, who has no second factor and no default
-- password to change, or the directory accepts it and the user is in the table or is created. The second
-- factor: the temporary token was made for it, and the code is one of the user's, who has a second
-- factor and no default password to change. The change of password: the temporary token was made
-- for it, and the new password has 8 to 256 bytes, is not the old one and is hashed; the token has a new
-- version. The token is always one of that user.
pub answer-Shows :
    (d : Desk) (ask : Ask) (token : Text) → answer d ask ≡ logged_in token → Shows d ask token
unfolding answer login
answer-Shows d (logs_in ip username password s) token h =
    well_formed_login-Shows d ip username password s (malformed username password) token h
answer-Shows d (sends_code code temp_token) token h = code-Shows d code temp_token token h
answer-Shows d (changes_password temp_token new_pass) token h =
    change-Shows d temp_token new_pass token h

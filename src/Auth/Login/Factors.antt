-- ===== src/Auth/Login/Factors.antt =====
-- The handlers of /api/auth/2fa/verify and /api/auth/change-password-on-login in
-- cpp-backend/src/api/user_controller.cpp.
use vms_ai.Prelude.{
  ◌==◌, ltb, pos, ◌+ℤ◌, Bool, true, false, not, ◌&&◌, ◌||◌, Option, none, some, List, [], ◌∷◌,
  length, if◌then◌else◌, Text, bytes, text_beq,
}
use vms_ai.Totp.{verify_code}
use vms_ai.Auth.Users.{User}
use vms_ai.Auth.Jwt.{verify_two_factor_temp_token_jwt, verify_password_change_temp_token_jwt}
use vms_ai.Auth.Passwords.{verify_user_password, hash_password_with_salt}
use vms_ai.Auth.Login.{
  Desk, Write, stored_password, bumped_version, stored_login, audited, LoginReply, refused, failed,
  password_change_required, logged_in, access_token, password_token, must_change_password,
  is_safe_credential,
}

module _ (d : Desk) where
  abbrev pub invalid_code : List Write × LoginReply
  invalid_code = ([], refused 401 (bytes "Invalid 2FA code"))

  -- The answer to a code that fits, with whether a new password is wanted.
  unfoldable pub code_reply : User → Bool → List Write × LoginReply
  code_reply user true = (
    audited user.id (bytes "LOGIN_2FA_DEFAULT_PWD") ∷ [],
    password_change_required (password_token d user),
  )
  code_reply user false = (
    stored_login user.id ∷ audited user.id (bytes "LOGIN_2FA") ∷ [],
    logged_in (access_token d user),
  )

  unfoldable pub second_reply : Text → Option User → List Write × LoginReply
  second_reply code none = invalid_code
  second_reply code (some user) =
      if user.two_factor_enabled && verify_code user.two_factor_secret code (pos 1) d.unix_time
      then code_reply user (must_change_password d user)
      else invalid_code

  unfoldable pub verify_second_factor : Text → Text → List Write × LoginReply
  verify_second_factor code temp_token =
      if length code == 0
      then ([], refused 400 (bytes "code is required"))
      else if length temp_token == 0
      then ([], refused 400 (bytes "temp_token is required"))
      else if not (is_safe_credential code 16)
      then ([], refused 400 (bytes "Invalid 2FA code format"))
      else elim (verify_two_factor_temp_token_jwt d.jwt d.auth temp_token) [
        | none ↦ ([], refused 401 (bytes "Invalid or expired temp_token"))
        | some id ↦ second_reply code (d.by_id id)
      ]

  -- Whether the default password is still active, beside what is written and answered. The Boolean says
  -- whether updatePasswordWithSalt succeeds.
  unfoldable pub stored_reply : User → Text → Text → Bool → Bool × List Write × LoginReply
  stored_reply user h salt false = (
    d.default_password_active,
    stored_password user.id h salt ∷ [],
    refused 500 (bytes "Failed to update password"),
  )
  stored_reply user h salt true = (
    d.default_password_active && not (text_beq user.username (bytes "admin")),
    stored_password user.id h salt
        ∷ bumped_version user.id
        ∷ audited user.id (bytes "CHANGE_PASSWORD_ON_LOGIN")
        ∷ stored_login user.id
        ∷ [],
    logged_in (
        access_token d (record user {
          token_version = user.token_version +ℤ pos 1;
          password_hash = h;
          salt = salt;
        })),
  )

  unfoldable pub changed : User → Option (Text × Text) → Bool × List Write × LoginReply
  changed user none = (d.default_password_active, [], failed)
  changed user (some (h, salt)) = stored_reply user h salt d.can_store

  unfoldable pub change_of : Text → Option User → Bool × List Write × LoginReply
  change_of new_pass none = (d.default_password_active, [], refused 404 (bytes "User not found"))
  change_of new_pass (some user) =
      if verify_user_password d.argon2 new_pass user
      then (
        d.default_password_active,
        [],
        refused 400 (bytes "New password must differ from the current one"),
      )
      else changed user (hash_password_with_salt d.argon2 d.salt new_pass user.username)

  unfoldable pub change_password_on_login : Text → Text → Bool × List Write × LoginReply
  change_password_on_login temp_token new_pass =
      if length temp_token == 0
      then (d.default_password_active, [], refused 400 (bytes "temp_token is required"))
      else if ltb (length new_pass) 8 || ltb 256 (length new_pass)
      then (
        d.default_password_active,
        [],
        refused 400 (bytes "new_password must be 8-256 characters"),
      )
      else elim (verify_password_change_temp_token_jwt d.jwt d.auth temp_token) [
        | none ↦
            (d.default_password_active, [], refused 401 (bytes "Invalid or expired temp_token"))
        | some id ↦ change_of new_pass (d.by_id id)
      ]

-- ===== src/Auth/Users.antt =====
-- cpp-backend/include/core/user.h, and what the authentication reads of the configuration.
use vms_ai.Prelude.{ℤ, pos, Bool, false, List, [], Option, Text}

pub record User : Type 0 where
  pub id : ℤ
  pub username : Text
  pub password_hash : Text
  pub salt : Text
  pub role_id : ℤ
  pub full_name : Text
  pub email : Text
  pub is_active : Bool
  pub last_login : ℤ
  pub created_at : ℤ
  pub two_factor_enabled : Bool
  pub two_factor_secret : Text
  pub token_version : ℤ
  pub role_name : Text
  pub permissions : List Text

-- vms::core::User{}
abbrev pub blank_user : User
blank_user = record {
  id = pos 0;
  username = [];
  password_hash = [];
  salt = [];
  role_id = pos 0;
  full_name = [];
  email = [];
  is_active = false;
  last_login = pos 0;
  created_at = pos 0;
  two_factor_enabled = false;
  two_factor_secret = [];
  token_version = pos 0;
  role_name = [];
  permissions = [];
}

-- getAuthConfig()
pub record AuthConfig : Type 0 where
  pub enabled : Bool
  pub secret_key : Text
  pub token_expire_minutes : ℤ

-- The answers of the user table to getUserById: `first`, and `again` where a call asks once more.
pub record UserTable : Type 0 where
  pub first : ℤ → Option User
  pub again : ℤ → Option User

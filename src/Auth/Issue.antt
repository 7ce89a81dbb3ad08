-- ===== src/Auth/Issue.antt =====
-- cpp-backend/src/utils/jwt_utils.cpp: the making of tokens. Signing is a parameter: it takes the key and
-- the claims. Times are in seconds since the epoch, as jwt-cpp writes them; a draw is from 0 to 15.
pub mod Numerals
pub mod Addresses
pub mod Readings
pub mod RoundTrip
use vms_ai.Prelude.{
  ℕ, zero, suc, ◌+◌, ◌%◌, ℤ, pos, negsuc, ◌+ℤ◌, ◌*ℤ◌, true, [], ◌∷◌, length, get_or, set, ◌==◌,
  if◌then◌else◌, Map, insert, text_eq, Text, bytes,
}
use vms_ai.Totp.{decimal}
use vms_ai.Auth.Users.{User, AuthConfig}
use vms_ai.Auth.Jwt.{Claims, string, boolean, date, issuer}

-- std::to_string
unfoldable pub to_string : ℤ → Text
to_string (pos n) = decimal 10 n
to_string (negsuc n) = 45 ∷ decimal 10 (suc n)

abbrev pub hex_digits : Text
hex_digits = bytes "0123456789abcdef"

unfoldable pub hex_draws : (ℕ → ℕ) → ℕ → ℕ → Text
hex_draws draw zero i = []
hex_draws draw (suc left) i = get_or hex_digits (draw i) 0 ∷ hex_draws draw left (i + 1)

-- The writes over the 36 draws, in their order.
unfoldable pub generate_jti : (ℕ → ℕ) → Text
unfolding hex_draws
generate_jti draw =
    let buf = set (set (set (hex_draws draw 36 0) 8 45) 13 45) 14 52 in
    set (set (set buf 18 45) 19 (get_or hex_digits (8 + draw 36 % 4) 0)) 23 45

-- The claims that every token has.
unfoldable pub user_claims : User → Text → ℤ → ℤ → Text → Claims
user_claims user jti now exp token_use =
    (bytes "iss", string issuer)
    ∷ (bytes "sub", string (to_string user.id))
    ∷ (bytes "jti", string jti)
    ∷ (bytes "iat", date now)
    ∷ (bytes "exp", date exp)
    ∷ (bytes "username", string user.username)
    ∷ (bytes "role_id", string (to_string user.role_id))
    ∷ (bytes "token_use", string token_use)
    ∷ (bytes "ver", string (to_string user.token_version))
    ∷ []

-- What the makers of the tokens add.
unfoldable pub with_profile : User → Claims → Claims
with_profile user c = insert (bytes "two_factor_enabled") (boolean user.two_factor_enabled) (
    insert (bytes "is_active") (boolean user.is_active)
      (insert (bytes "role_name") (string user.role_name) c))

unfoldable pub with_flag : Text → Claims → Claims
with_flag name c = insert name (boolean true) c

unfoldable pub with_ip : Text → Claims → Claims
with_ip [] c = c
with_ip (x ∷ client_ip) c = insert (bytes "ip") (string (x ∷ client_ip)) c

-- What is signed.
unfoldable pub built : (ℕ → ℕ) → ℤ → User → ℤ → Text → (Claims → Claims) → Claims
built draw now user ttl token_use builder =
    builder (user_claims user (generate_jti draw) now (now +ℤ ttl) token_use)

module _ (sign : Text → Claims → Text) (cfg : AuthConfig) (draw : ℕ → ℕ) (now : ℤ) where
  unfoldable pub sign_user_token : User → ℤ → Text → (Claims → Claims) → Text
  sign_user_token user ttl token_use builder =
      sign cfg.secret_key (built draw now user ttl token_use builder)

  unfoldable pub create_access_token_jwt : User → Text
  create_access_token_jwt user =
      sign_user_token user (cfg.token_expire_minutes *ℤ pos 60) (bytes "access") (with_profile user)

  unfoldable pub create_two_factor_temp_token_jwt : User → Text
  create_two_factor_temp_token_jwt user =
      sign_user_token user (pos 300) (bytes "2fa_pending") (with_flag (bytes "requires_2fa"))

  unfoldable pub create_password_change_temp_token_jwt : User → Text
  create_password_change_temp_token_jwt user =
      sign_user_token user (pos 300) (bytes "password_change_pending")
        (with_flag (bytes "requires_password_change"))

  unfoldable pub create_ws_ticket_jwt : User → Text → Text
  create_ws_ticket_jwt user client_ip =
      sign_user_token user (pos 30) (bytes "ws_ticket") (with_ip client_ip)

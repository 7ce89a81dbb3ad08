-- ===== src/Auth/Uses.antt =====
-- A token serves one purpose.
use vms_ai.Prelude.{
  ℤ, ◌≡◌, refl, sym, ap, ◌∙◌, Bool, Option, none, some, Text, bytes, text_beq, text_beq_iff,
  if◌then◌else◌, subst,
}
use vms_ai.Auth.Numbers.{>>=-eq-some, some_injective}
use vms_ai.Auth.Users.{User, AuthConfig}
use vms_ai.Auth.Jwt.{
  Claims, JwtLibrary, checked, string_or, string_claim, ip_allowed, verify_jwt_for_use,
  decode_jwt_user_for_use, verify_access_token_jwt, decode_access_token_jwt_user,
  verify_two_factor_temp_token_jwt, verify_password_change_temp_token_jwt, decode_ws_ticket_jwt,
}
use vms_ai.Auth.Tokens.{IsVerified, checked-IsVerified, for_access}

-- The five functions that accept a token.
pub data Use : Type 0 where
  access : Use
  two_factor : Use
  password_change : Use
  ws_ticket : Use

-- Some function for this use accepts the token.
pub data Accepts (l : JwtLibrary) (cfg : AuthConfig) (token : Text) : Use → Type 0 where
  as_id :
      {u : Use} {i : ℤ}
      → u ≡ access
      → verify_access_token_jwt l cfg token ≡ some i
      → Accepts l cfg token u
  as_user :
      {u : Use} {v : User}
      → u ≡ access
      → decode_access_token_jwt_user l cfg token ≡ some v
      → Accepts l cfg token u
  as_second_factor :
      {u : Use} {i : ℤ}
      → u ≡ two_factor
      → verify_two_factor_temp_token_jwt l cfg token ≡ some i
      → Accepts l cfg token u
  as_password_change :
      {u : Use} {i : ℤ}
      → u ≡ password_change
      → verify_password_change_temp_token_jwt l cfg token ≡ some i
      → Accepts l cfg token u
  as_ticket :
      {u : Use} {v : User × Text} (client_ip : Text)
      → u ≡ ws_ticket
      → decode_ws_ticket_jwt l cfg token client_ip ≡ some v
      → Accepts l cfg token u

abbrev use_of : Text → Option Use
use_of t =
    if for_access t
    then some access
    else if text_beq t (bytes "2fa_pending")
    then some two_factor
    else if text_beq t (bytes "password_change_pending")
    then some password_change
    else if text_beq t (bytes "ws_ticket")
    then some ws_ticket
    else none

-- The token is verified, with a use that names u.
abbrev Serves : JwtLibrary → AuthConfig → Text → Use → Type 0
Serves l cfg token u =
    (p : Text → Bool) × (claims : Claims) × (v : IsVerified l cfg p token claims) × (use_of
        v.token_use
      ≡ some u)

named :
    (l : JwtLibrary) (cfg : AuthConfig) (token name : Text) (u : Use) {claims : Claims}
    → use_of name ≡ some u
    → checked l cfg (λ t. text_beq t name) token ≡ some claims
    → Serves l cfg token u
named l cfg token name u {claims} e h =
    let v = checked-IsVerified l cfg (λ t. text_beq t name) token h in
    (λ t. text_beq t name, claims, v, ap use_of ((text_beq_iff v.token_use name).0 v.allowed) ∙ e)

for_access_named :
    (l : JwtLibrary) (cfg : AuthConfig) (token : Text) {claims : Claims}
    → checked l cfg for_access token ≡ some claims
    → Serves l cfg token access
for_access_named l cfg token {claims} h =
    let v = checked-IsVerified l cfg for_access token h in
    (for_access, claims, v, rw (v.allowed) refl)

serves :
    (l : JwtLibrary) (cfg : AuthConfig) (token : Text) {u : Use}
    → Accepts l cfg token u
    → Serves l cfg token u
unfolding verify_access_token_jwt decode_access_token_jwt_user verify_two_factor_temp_token_jwt
    verify_password_change_temp_token_jwt decode_ws_ticket_jwt verify_jwt_for_use
    decode_jwt_user_for_use
serves l cfg token (as_id e h) =
    let (c, k, _) = >>=-eq-some (checked l cfg for_access token) _ h in
    subst (Serves l cfg token) (sym e) (for_access_named l cfg token k)
serves l cfg token (as_user e h) =
    let (c, k, _) = >>=-eq-some (checked l cfg for_access token) _ h in
    subst (Serves l cfg token) (sym e) (for_access_named l cfg token k)
serves l cfg token (as_second_factor e h) =
    let (c, k, _) = >>=-eq-some (checked l cfg (λ t. text_beq t (bytes "2fa_pending")) token) _ h in
    subst (Serves l cfg token) (sym e) (named l cfg token (bytes "2fa_pending") two_factor refl k)
serves l cfg token (as_password_change e h) =
    let (c, k, _) =
      >>=-eq-some (checked l cfg (λ t. text_beq t (bytes "password_change_pending")) token) _ h in
    subst (Serves l cfg token) (sym e)
      (named l cfg token (bytes "password_change_pending") password_change refl k)
serves l cfg token (as_ticket client_ip e h) =
    let (claims, _, h1) = >>=-eq-some (l.decode token) _ h in
    let (jti, _, h2) = >>=-eq-some (string_claim (bytes "jti") claims) _ h1 in
    let (_, _, h3) = >>=-eq-some (ip_allowed claims client_ip) _ h2 in
    let (user, h4, _) =
      >>=-eq-some (decode_jwt_user_for_use l cfg (λ t. text_beq t (bytes "ws_ticket")) token) _
        h3 in
    let (c, k, _) = >>=-eq-some (checked l cfg (λ t. text_beq t (bytes "ws_ticket")) token) _ h4 in
    subst (Serves l cfg token) (sym e) (named l cfg token (bytes "ws_ticket") ws_ticket refl k)

-- A token that one of the five functions accepts for its use, as an access token (as an id or as a
-- user), for the second factor, for a change of the password or as a ticket, none of them accepts for
-- another use.
pub one_use :
    (l : JwtLibrary) (cfg : AuthConfig) (token : Text) {u v : Use}
    → Accepts l cfg token u
    → Accepts l cfg token v
    → u ≡ v
one_use l cfg token a b =
    let (_, c, p, e) = serves l cfg token a in
    let (_, d, q, f) = serves l cfg token b in
    let claims = some_injective (sym p.decoded ∙ q.decoded) in
    let uses = some_injective (
      sym p.claimed
      ∙ ap (λ k. string_or (bytes "token_use") (bytes "access") k) claims
      ∙ q.claimed) in
    some_injective (sym e ∙ ap use_of uses ∙ f)

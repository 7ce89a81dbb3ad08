-- ===== src/Auth/Issue/RoundTrip.antt =====
-- A token that was made is read as the user whom it was made for.
use vms_ai.Prelude.{
  ℕ, ◌≡◌, refl, ◌==◌, ◌||◌, length, ℤ, pos, ◌+ℤ◌, ◌*ℤ◌, ltb_ℤ, Bool, true, false, [], Option, none,
  some, text_eq, Text, bytes, text_beq, int_beq,
}
use vms_ai.Auth.Numbers.{◌>>=◌, ◌>>◌, guard}
use vms_ai.Auth.Users.{User, AuthConfig, UserTable}
use vms_ai.Auth.Jwt.{
  Claims, JwtLibrary, decode_jwt_user_for_use, decode_access_token_jwt_user, decode_ws_ticket_jwt,
}
use vms_ai.Auth.Validate.{active_user, validate_jwt, validate_token}
use vms_ai.Auth.Issue.{
  generate_jti, with_profile, with_ip, built, create_access_token_jwt, create_ws_ticket_jwt,
}
use vms_ai.Auth.Issue.Addresses.{lets_in}
use vms_ai.Auth.Issue.Readings.{
  ReadsBack, HasInts, carried, user_of_claims-carried, profile-Carries, ip-Carries, checked-Stamped,
  profile-Stamped, ip-Stamped, ip_allowed-with_ip,
}

-- What a session of the user is worth, with what the user table says at the time of the request.
abbrev pub session : UserTable → User → Option User
session db user = do
  guard user.is_active
  row ← active_user (db.first user.id)
  guard (int_beq row.token_version user.token_version)
  some (record (carried user) {
    role_id = row.role_id;
    role_name = row.role_name;
    two_factor_enabled = user.two_factor_enabled;
  })

module _ (l : JwtLibrary) (sign : Text → Claims → Text) (cfg : AuthConfig) (draw : ℕ → ℕ)
    (now later : ℤ) (user : User) (ints : HasInts user) (from : ltb_ℤ later now ≡ false) where
  abbrev profile : Claims
  profile =
      built draw now user (cfg.token_expire_minutes *ℤ pos 60) (bytes "access") (with_profile user)

  abbrev made_token : Text
  made_token = create_access_token_jwt sign cfg draw now user

  access_user-made :
      ltb_ℤ later (now +ℤ cfg.token_expire_minutes *ℤ pos 60) ≡ true
      → ReadsBack l later cfg.secret_key made_token profile
      → decode_access_token_jwt_user l cfg made_token ≡ (
          guard user.is_active
          >> some (record (carried user) {
            role_name = user.role_name;
            is_active = user.is_active;
            two_factor_enabled = user.two_factor_enabled;
          }))
  unfolding decode_access_token_jwt_user decode_jwt_user_for_use built
  access_user-made until back =
      rw
        (checked-Stamped l cfg later made_token profile (generate_jti draw) now
          (now +ℤ cfg.token_expire_minutes *ℤ pos 60) (bytes "access")
          (λ u. length u == 0 || text_beq u (bytes "access")) back
          (profile-Stamped user (generate_jti draw) now (now +ℤ cfg.token_expire_minutes *ℤ pos 60)
            (bytes "access"))
          from until)
        (user_of_claims-carried user user.role_name user.is_active user.two_factor_enabled profile
          (profile-Carries user (generate_jti draw) now (now +ℤ cfg.token_expire_minutes *ℤ pos 60)
            (bytes "access"))
          ints)

  active_session :
      (active : Bool) (row : Option User) (db : UserTable)
      → active_user (db.first user.id) ≡ row
      → user.is_active ≡ active
      → ((guard active
            >> some (record (carried user) {
              role_name = user.role_name;
              is_active = active;
              two_factor_enabled = user.two_factor_enabled;
            }))
          >>= λ jwt_user. active_user (db.first jwt_user.id) >>= λ db_user.
              guard (int_beq db_user.token_version jwt_user.token_version)
              >> some
                  (record jwt_user { role_id = db_user.role_id; role_name = db_user.role_name }))
        ≡ session db user
  active_session true none db e a = rw (e, a) refl
  active_session true (some row) db e a = rw (e, a) refl
  active_session false row db e a = rw a refl

  -- An access token, from when it is made until token_expire_minutes later: validateToken gives the user
  -- whom it was made for, with the role that the user table has now, if it was active when the token was
  -- made, is active in the table and has the token version that it had; and no user otherwise, so that a
  -- new token version ends every session. The ids and the version are ints, and jwt-cpp reads back
  -- what it has signed.
  pub validate_token-create_access_token_jwt :
      (db : UserTable) (now_ms : ℤ)
      → ltb_ℤ later (now +ℤ cfg.token_expire_minutes *ℤ pos 60) ≡ true
      → ReadsBack l later cfg.secret_key made_token profile
      → validate_token l cfg db now_ms made_token ≡ session db user
  unfolding validate_token validate_jwt
  validate_token-create_access_token_jwt db now_ms until back =
      rw (back.parts, access_user-made until back)
        (active_session user.is_active (active_user (db.first user.id)) db refl refl)

  module _ (client_ip : Text) where
    abbrev ticket_claims : Claims
    ticket_claims = built draw now user (pos 30) (bytes "ws_ticket") (with_ip client_ip)

    abbrev ticket : Text
    ticket = create_ws_ticket_jwt sign cfg draw now user client_ip

    decode_jwt_user-ticket :
        ltb_ℤ later (now +ℤ pos 30) ≡ true
        → ReadsBack l later cfg.secret_key ticket ticket_claims
        → decode_jwt_user_for_use l cfg (λ u. text_beq u (bytes "ws_ticket")) ticket
          ≡ some (carried user)
    unfolding decode_jwt_user_for_use built
    decode_jwt_user-ticket until back =
        rw
          (checked-Stamped l cfg later ticket ticket_claims (generate_jti draw) now (now +ℤ pos 30)
            (bytes "ws_ticket") (λ u. text_beq u (bytes "ws_ticket")) back
            (ip-Stamped user (generate_jti draw) now (now +ℤ pos 30) (bytes "ws_ticket") client_ip)
            from until)
          (user_of_claims-carried user [] true false ticket_claims
            (ip-Carries user (generate_jti draw) now (now +ℤ pos 30) (bytes "ws_ticket") client_ip)
            ints)

    -- From when a ticket is made until 30 seconds later it is read as the user whom it was made for, active
    -- and without role name, with the id that it was made with, where it is bound to no address, the client
    -- has none, the client's is the one that the ticket is bound to, or the client's is 127.0.0.1, ::1 or
    -- localhost (an IPv4 address that is written in IPv6 counts as the IPv4 address). Any other client is
    -- refused. The numbers of the user are ints, and jwt-cpp reads back what it has signed.
    pub decode_ws_ticket_jwt-create_ws_ticket_jwt :
        (peer_ip : Text)
        → ltb_ℤ later (now +ℤ pos 30) ≡ true
        → ReadsBack l later cfg.secret_key ticket ticket_claims
        → decode_ws_ticket_jwt l cfg ticket peer_ip
          ≡ (guard (lets_in client_ip peer_ip) >> some (carried user, generate_jti draw))
    unfolding decode_ws_ticket_jwt built
    decode_ws_ticket_jwt-create_ws_ticket_jwt peer_ip until back =
        rw
          (
            back.decoded,
            (ip-Stamped user (generate_jti draw) now (now +ℤ pos 30) (bytes "ws_ticket")
                client_ip).named,
            ip_allowed-with_ip user (generate_jti draw) now (now +ℤ pos 30) (bytes "ws_ticket")
                client_ip peer_ip,
            decode_jwt_user-ticket until back,
          )
          refl

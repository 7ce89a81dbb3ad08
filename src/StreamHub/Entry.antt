-- ===== src/StreamHub/Entry.antt =====
-- A ticket of jwt_utils.cpp opens the hub.
use vms_ai.Prelude.{
  lookup, Bool-cases, inl, inr, int_eq, ℕ, ◌≡◌, refl, sym, ap, subst, ◌∙◌, ℤ, pos, ◌+ℤ◌, ltb_ℤ,
  Bool, true, false, some, List, [], ◌∷◌, if◌then◌else◌, lookup-insert_self, nat_eq, Text, bytes,
  int_beq,
}
use vms_ai.Auth.Numbers.{◌>>◌, guard}
use vms_ai.Auth.Users.{User}
use vms_ai.Auth.Jwt.{Claims, decode_ws_ticket_jwt}
use vms_ai.Auth.Issue.{generate_jti, built, with_ip, create_ws_ticket_jwt}
use vms_ai.Auth.Issue.Readings.{ReadsBack, HasInts, carried}
use vms_ai.Auth.Issue.Addresses.{lets_in}
use vms_ai.Auth.Issue.RoundTrip.{decode_ws_ticket_jwt-create_ws_ticket_jwt}
use vms_ai.StreamHub.Tickets.{TicketStore, use_ticket}
use vms_ai.StreamHub.State.{
  StreamHub, HubConfig, Reply, auth_ok, auth_message, or_unset, properties_of,
}
use vms_ai.StreamHub.Hub.{
  authenticated, count_authed, admit, with_ticket, with_token, authenticate_all,
  process_text_message,
}

-- The socket has the rights of the user: an administrator's, or those on the cameras that are assigned
-- to the user. It is told so.
pub record IsLetIn (cameras_of : ℤ → List ℤ) (h : StreamHub) (s : ℕ) (user : User)
    (r : StreamHub × List (ℕ × Reply)) : Type 0 where
  pub authed : (properties_of s r.0).authed ≡ true
  pub is_admin : (properties_of s r.0).is_admin ≡ int_beq user.role_id (pos 1)
  pub user_id : (properties_of s r.0).user_id ≡ user.id
  pub cameras : lookup s r.0.allowed_cameras ≡ (
      if int_beq user.role_id (pos 1)
      then lookup s h.allowed_cameras
      else some (cameras_of user.id))
  pub told : r.1 ≡ (s, auth_ok) ∷ []

properties_of-authenticated :
    (cameras_of : ℤ → List ℤ) (s : ℕ) (user : User) (h : StreamHub)
    → properties_of s (authenticated cameras_of s user h) ≡ record (properties_of s h) {
      authed = true;
      is_admin = int_beq user.role_id (pos 1);
      user_id = user.id;
    }
unfolding authenticated count_authed properties_of
properties_of-authenticated cameras_of s user h = ap or_unset (lookup-insert_self s _ h.properties)

lookup-authenticated :
    (cameras_of : ℤ → List ℤ) (s : ℕ) (user : User) (h : StreamHub)
    → lookup s (authenticated cameras_of s user h).allowed_cameras ≡ (
        if int_beq user.role_id (pos 1)
        then lookup s h.allowed_cameras
        else some (cameras_of user.id))
unfolding authenticated count_authed
lookup-authenticated cameras_of s user h = elim (Bool-cases (int_beq user.role_id (pos 1))) [
  | inl b ↦ rw b refl
  | inr b ↦ rw b (lookup-insert_self s (cameras_of user.id) h.allowed_cameras)
]

authenticated-IsLetIn :
    (cameras_of : ℤ → List ℤ) (s : ℕ) (user : User) (h : StreamHub)
    → IsLetIn cameras_of h s user (authenticated cameras_of s user h, (s, auth_ok) ∷ [])
authenticated-IsLetIn cameras_of s user h =
    let e = properties_of-authenticated cameras_of s user h in
    record {
      cameras = lookup-authenticated cameras_of s user h;
      authed = ap (λ p. p.authed) e;
      is_admin = ap (λ p. p.is_admin) e;
      user_id = ap (λ p. p.user_id) e;
      told = refl;
    }

admit-IsLetIn :
    (cameras_of : ℤ → List ℤ) (s : ℕ) (user : User) (h : StreamHub) (r : TicketStore × Bool)
    → r.1 ≡ true
    → IsLetIn cameras_of h s user (admit cameras_of s user h r)
unfolding admit
admit-IsLetIn cameras_of s user h (store, true) e =
    let k = authenticated-IsLetIn cameras_of s user (record h { tickets = store }) in
    record {
      authed = k.authed;
      is_admin = k.is_admin;
      user_id = k.user_id;
      cameras = k.cameras;
      told = k.told;
    }
admit-IsLetIn cameras_of s user h (store, false) e = cc

module _ (cfg : HubConfig) (sign : Text → Claims → Text) (draw : ℕ → ℕ) (now later : ℤ)
    (user : User) (ints : HasInts user) (client_ip : Text) where
  abbrev ticket : Text
  ticket = create_ws_ticket_jwt sign cfg.auth draw now user client_ip

  -- In a hub that wants tickets, a ticket from createWsTicketJwt that is shown within 30 seconds, by a client
  -- that the address in it lets in and with an id that the hub does not hold as used, lets its socket
  -- in: with the id of the user, as an administrator exactly where the role is 1 and otherwise with the
  -- cameras that are assigned to the user (for an administrator the socket's entry stays as it was), and
  -- with AUTH_OK as the only answer. The numbers of the user are ints, and jwt-cpp reads back what it has
  -- signed.
  pub opens_hub :
      (live : ℕ → Bool) (cameras_of : ℤ → List ℤ) (steady : ℤ) (s : ℕ) (peer_ip : Text)
      (h : StreamHub)
      → cfg.auth.enabled ≡ true
      → ltb_ℤ later now ≡ false
      → ltb_ℤ later (now +ℤ pos 30) ≡ true
      → ReadsBack cfg.jwt later cfg.auth.secret_key ticket
          (built draw now user (pos 30) (bytes "ws_ticket") (with_ip client_ip))
      → lets_in client_ip peer_ip ≡ true
      → (use_ticket steady (generate_jti draw) h.tickets).1 ≡ true
      → IsLetIn cameras_of h s user
          (process_text_message cfg live cameras_of steady s peer_ip (auth_message (some ticket)) h)
  unfolding process_text_message with_token with_ticket
  opens_hub live cameras_of steady s peer_ip h enabled from until back here new =
      subst (IsLetIn cameras_of h s user)
        (sym (
          ap
            (λ b.
              if b
              then with_ticket cameras_of steady s
                  (decode_ws_ticket_jwt cfg.jwt cfg.auth ticket peer_ip) h
              else authenticate_all s h)
            enabled
          ∙ ap (λ o. with_ticket cameras_of steady s o h)
              (decode_ws_ticket_jwt-create_ws_ticket_jwt cfg.jwt sign cfg.auth draw now later user
                  ints from client_ip peer_ip until back
                ∙ ap (λ b. guard b >> some (carried user, generate_jti draw)) here)))
        (record {
          authed = k.authed;
          is_admin = k.is_admin;
          user_id = k.user_id;
          cameras = k.cameras;
          told = k.told;
        })
    where
      k :
          IsLetIn cameras_of h s
            (carried user)
            (admit cameras_of s (carried user) h (use_ticket steady (generate_jti draw) h.tickets))
      k =
          admit-IsLetIn cameras_of s (carried user) h
            (use_ticket steady (generate_jti draw) h.tickets) new

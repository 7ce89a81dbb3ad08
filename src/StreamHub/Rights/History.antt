-- ===== src/StreamHub/Rights/History.antt =====
-- The rights along a history of the hub.
use vms_ai.Prelude.{
  ℕ, ◌≡◌, refl, inl, inr, ℤ, pos, int_beq, Bool, true, false, not, ◌&&◌, Bool-cases, Option, none,
  some, List, [], ◌∷◌, if◌then◌else◌, lookup, nat_eq, int_eq, Text,
}
use vms_ai.Auth.Users.{User}
use vms_ai.Auth.Jwt.{checked, decode_jwt_user_for_use, decode_ws_ticket_jwt}
use vms_ai.StreamHub.Tickets.{TicketStore, use_ticket}
use vms_ai.StreamHub.Rights.{Grants, no_grants, may, granted, IsGranted}
use vms_ai.StreamHub.Slots.{try_reserve_conn_slot}
use vms_ai.StreamHub.Rights.{broadcast-may}
use vms_ai.StreamHub.Rights.Steps.{
  subscribe-IsGranted, fail_auth-IsGranted, auth_timeout-IsGranted, with_grant,
}
use vms_ai.StreamHub.State.{
  HubConfig, Message, Properties, StreamHub, auth_message, auth_required, camera_message,
  clients_of, has_socket, invalid_ticket, no_hub, other_message, not_json, ping_message,
  properties_of, token_required,
}
use vms_ai.StreamHub.Hub.{
  auth_timeout, fail_auth, on_new_connection, process_other, process_text_message,
  socket_disconnected, with_ticket, with_token,
}
use vms_ai.StreamHub.Events.{broadcast_event}
use vms_ai.StreamHub.Rights.Sockets.{disconnected-IsGranted, with_slot-IsGranted, admit-IsGranted}

-- What happens to the hub: a connection, a message (from an address, at a time, with what the user
-- table then says of the cameras of a user), the timer of a socket, a disconnection.
pub data HubEvent : Type 0 where
  connects : ℕ → Text → HubEvent
  says : ℕ → Text → ℤ → (ℤ → List ℤ) → Message → HubEvent
  times_out : ℕ → HubEvent
  goes : ℕ → HubEvent

module _ (cfg : HubConfig) where
  -- A socket that is connected does not connect again.
  unfoldable pub connect_new : ℕ → Text → StreamHub → Option Properties → StreamHub
  connect_new s ip h none = (on_new_connection cfg s ip h).0
  connect_new s ip h (some _) = h

  unfoldable pub step : (ℕ → Bool) → HubEvent → StreamHub → StreamHub
  step live (connects s ip) h = connect_new s ip h (lookup s h.properties)
  step live (says s ip now cameras_of message) h =
      (process_text_message cfg live cameras_of now s ip message h).0
  step live (times_out s) h = (auth_timeout s h).0
  step live (goes s) h = socket_disconnected live s h

  -- A history, with the sockets that a QPointer reaches at each event.
  unfoldable pub run : List ((ℕ → Bool) × HubEvent) → StreamHub → StreamHub
  run [] h = h
  run ((live, e) ∷ es) h = run es (step live e h)

  -- What a ticket that is let in gives to its socket.
  ticket_grant :
      (ℤ → List ℤ) → ℤ → ℕ → Option (User × Text) → TicketStore → (ℕ → Grants) → ℕ → Grants
  ticket_grant cameras_of now s none store grants = grants
  ticket_grant cameras_of now s (some (user, jti)) store grants =
      if (use_ticket now jti store).1
      then with_grant s (granted cameras_of user (grants s)) grants
      else grants

  grant : HubEvent → StreamHub → (ℕ → Grants) → ℕ → Grants
  grant (says s ip now cameras_of (auth_message (some token))) h grants =
      ticket_grant cameras_of now s (decode_ws_ticket_jwt cfg.jwt cfg.auth token ip) h.tickets
        grants
  grant e h grants = grants

  -- The rights that the tickets of a history give.
  pub rights : List ((ℕ → Bool) × HubEvent) → StreamHub → (ℕ → Grants) → ℕ → Grants
  rights [] h grants = grants
  rights ((live, e) ∷ es) h grants = rights es (step live e h) (grant e h grants)

  module _ (enabled : cfg.auth.enabled ≡ true) where
    with_ticket-IsGranted :
        (cameras_of : ℤ → List ℤ) (now : ℤ) (s : ℕ) (o : Option (User × Text)) (h : StreamHub)
        (grants : ℕ → Grants)
        → IsGranted h grants
        → IsGranted
            (with_ticket cameras_of now s o h).0
            (ticket_grant cameras_of now s o h.tickets grants)
    unfolding with_ticket ticket_grant
    with_ticket-IsGranted cameras_of now s none h grants v =
        fail_auth-IsGranted s invalid_ticket h grants v
    with_ticket-IsGranted cameras_of now s (some (user, jti)) h grants v =
        admit-IsGranted cameras_of s user h (use_ticket now jti h.tickets) grants v

    process_other-IsGranted :
        (live : ℕ → Bool) (s : ℕ) (message : Message) (h : StreamHub) (grants : ℕ → Grants)
        → (properties_of s h).authed ≡ true
        → IsGranted h grants
        → IsGranted (process_other live s message h).0 grants
    unfolding process_other
    process_other-IsGranted live s (camera_message c) h grants a v =
        subscribe-IsGranted live s c h grants v a
    process_other-IsGranted live s not_json h grants a v = v
    process_other-IsGranted live s ping_message h grants a v = v
    process_other-IsGranted live s other_message h grants a v = v
    process_other-IsGranted live s (auth_message o) h grants a v = v

    -- A message other than AUTH, from a socket that may not yet say anything or may.
    other_message-IsGranted :
        (live : ℕ → Bool) (s : ℕ) (message : Message) (h : StreamHub) (grants : ℕ → Grants)
        → IsGranted h grants
        → IsGranted
            (if cfg.auth.enabled && not (properties_of s h).authed
              then fail_auth s auth_required h
              else process_other live s message h).0
            grants
    other_message-IsGranted live s message h grants v =
        elim (Bool-cases (properties_of s h).authed) [
          | inl b ↦ rw (enabled, b) (process_other-IsGranted live s message h grants b v)
          | inr b ↦ rw (enabled, b) (fail_auth-IsGranted s auth_required h grants v)
        ]

    says-IsGranted :
        (live : ℕ → Bool) (s : ℕ) (ip : Text) (now : ℤ) (cameras_of : ℤ → List ℤ)
        (message : Message) (h : StreamHub) (grants : ℕ → Grants)
        → IsGranted h grants
        → IsGranted
            (step live (says s ip now cameras_of message) h)
            (grant (says s ip now cameras_of message) h grants)
    unfolding step grant process_text_message with_token ticket_grant decode_ws_ticket_jwt
        decode_jwt_user_for_use checked
    says-IsGranted live s ip now cameras_of (auth_message none) h grants v =
        rw enabled (fail_auth-IsGranted s token_required h grants v)
    says-IsGranted live s ip now cameras_of (auth_message (some token)) h grants v = rw enabled (
        with_ticket-IsGranted cameras_of now s (decode_ws_ticket_jwt cfg.jwt cfg.auth token ip) h
          grants v)
    says-IsGranted live s ip now cameras_of (camera_message c) h grants v =
        other_message-IsGranted live s (camera_message c) h grants v
    says-IsGranted live s ip now cameras_of not_json h grants v = v
    says-IsGranted live s ip now cameras_of ping_message h grants v =
        other_message-IsGranted live s ping_message h grants v
    says-IsGranted live s ip now cameras_of other_message h grants v =
        other_message-IsGranted live s other_message h grants v

    connect_new-IsGranted :
        (s : ℕ) (ip : Text) (h : StreamHub) (found : Option Properties) (grants : ℕ → Grants)
        → lookup s h.properties ≡ found
        → IsGranted h grants
        → IsGranted (connect_new s ip h found) grants
    unfolding connect_new on_new_connection
    connect_new-IsGranted s ip h none grants e v =
        with_slot-IsGranted s ip h (try_reserve_conn_slot cfg.max_global cfg.max_per_ip ip h.slots)
          grants e v
    connect_new-IsGranted s ip h (some p) grants e v = v

    step-IsGranted :
        (live : ℕ → Bool) (e : HubEvent) (h : StreamHub) (grants : ℕ → Grants)
        → IsGranted h grants
        → IsGranted (step live e h) (grant e h grants)
    unfolding step grant
    step-IsGranted live (connects s ip) h grants v =
        connect_new-IsGranted s ip h (lookup s h.properties) grants refl v
    step-IsGranted live (says s ip now cameras_of message) h grants v =
        says-IsGranted live s ip now cameras_of message h grants v
    step-IsGranted live (times_out s) h grants v = auth_timeout-IsGranted s h grants v
    step-IsGranted live (goes s) h grants v = disconnected-IsGranted live s h grants v

    run-IsGranted :
        (es : List ((ℕ → Bool) × HubEvent)) (h : StreamHub) (grants : ℕ → Grants)
        → IsGranted h grants
        → IsGranted (run es h) (rights es h grants)
    unfolding run rights
    run-IsGranted [] h grants v = v
    run-IsGranted ((live, e) ∷ es) h grants v =
        run-IsGranted es (step live e h) (grant e h grants) (step-IsGranted live e h grants v)

no_hub-IsGranted : IsGranted no_hub (λ s. no_grants)
unfolding properties_of clients_of lookup has_socket
no_hub-IsGranted = record {
  place = λ s c k. absurd (let bad = k in cc);
  admin = λ s k. k;
  scope = λ s l c e k. absurd (let bad = e in cc);
  unscoped = λ s k e. k;
  clients = λ s c other k. absurd (let bad = k in cc);
  listeners = λ s k. k;
}

-- In a hub that wants tickets, after any history of connections, messages, timers and disconnections, a
-- socket to which broadcastEvent sends an event of a camera (other than 0) has the right to it: with a
-- ticket that was let in it has authenticated itself as an administrator, or as a user to whom the
-- camera belonged at that time, whether it has subscribed to the camera or to the global channel 0.
pub broadcast_event-rights :
    (cfg : HubConfig) (es : List ((ℕ → Bool) × HubEvent)) (live : ℕ → Bool) (s : ℕ) (c : ℤ)
    → cfg.auth.enabled ≡ true
    → int_beq c (pos 0) ≡ false
    → has_socket s (broadcast_event live c (run cfg es no_hub)) ≡ true
    → may c (rights cfg es no_hub (λ t. no_grants) s) ≡ true
broadcast_event-rights cfg es live s c enabled other k =
    broadcast-may live s c (run cfg es no_hub) (rights cfg es no_hub (λ t. no_grants))
      (run-IsGranted cfg enabled es no_hub (λ t. no_grants) no_hub-IsGranted) other k

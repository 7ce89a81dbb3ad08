-- ===== src/StreamHub/Hub.antt =====
-- cpp-backend/src/streaming/camera_stream_manager.cpp: connections and messages. What is sent is the
-- value of the call.
use vms_ai.Prelude.{
  ℕ, ◌==◌, ℤ, pos, Bool, true, false, not, ◌&&◌, ◌||◌, Option, none, some, List, [], ◌∷◌, ◌++◌,
  length, if◌then◌else◌, lookup, insert, erase, nat_eq, int_eq, text_eq, int_beq, Text,
}
use vms_ai.Auth.Users.{User}
use vms_ai.Auth.Jwt.{decode_ws_ticket_jwt}
use vms_ai.StreamHub.Slots.{ConnSlots, try_reserve_conn_slot, release_conn_slot}
use vms_ai.StreamHub.Tickets.{TicketStore, use_ticket}
use vms_ai.StreamHub.State.{
  HubConfig, Message, Reply, StreamHub, add_client, auth_message, auth_ok, auth_required, bump,
  camera_message, closed, has_camera, init_of, invalid_ticket, ping_message, not_json, pong,
  properties_of, remove_client, subscribe_denied, subscribed, ticket_already_used, token_required,
  unset,
}

-- A socket without a slot is closed.
unfoldable pub with_slot : ℕ → Text → StreamHub → ConnSlots × Bool → StreamHub × List (ℕ × Reply)
unfolding bump
with_slot s peer_ip h (slots, true) = (
  record h {
    slots = slots;
    properties = insert s (record unset { peer_ip = peer_ip }) h.properties;
    counters = record h.counters { conn_total = bump h.counters.conn_total };
  },
  [],
)
with_slot s peer_ip h (slots, false) = (
  record h {
    slots = slots;
    counters = record h.counters {
      conn_cap_rejected_total = bump h.counters.conn_cap_rejected_total;
    };
  },
  (s, closed) ∷ [],
)

unfoldable pub on_new_connection : HubConfig → ℕ → Text → StreamHub → StreamHub × List (ℕ × Reply)
on_new_connection cfg s peer_ip h =
    with_slot s peer_ip h (try_reserve_conn_slot cfg.max_global cfg.max_per_ip peer_ip h.slots)

unfoldable pub socket_disconnected : (ℕ → Bool) → ℕ → StreamHub → StreamHub
unfolding bump
socket_disconnected live s h =
    let peer_ip = (properties_of s h).peer_ip in
    let h' = remove_client live s h in
    record h' {
      allowed_cameras = erase s h'.allowed_cameras;
      slots = if length peer_ip == 0 then h'.slots else release_conn_slot peer_ip h'.slots;
      properties = erase s h'.properties;
      counters = record h'.counters { disconnects_total = bump h'.counters.disconnects_total };
    }

-- The timer of a socket that has not authenticated itself.
unfoldable pub auth_timeout : ℕ → StreamHub → StreamHub × List (ℕ × Reply)
unfolding bump
auth_timeout s h = if (properties_of s h).authed then (h, []) else (
  record h {
    counters = record h.counters { preauth_timeout_total = bump h.counters.preauth_timeout_total };
  },
  (s, closed) ∷ [],
)

unfoldable pub fail_auth : ℕ → Reply → StreamHub → StreamHub × List (ℕ × Reply)
unfolding bump
fail_auth s reply h = (
  record h {
    counters = record h.counters { auth_failed_total = bump h.counters.auth_failed_total };
  },
  (s, reply) ∷ (s, closed) ∷ [],
)

unfoldable pub count_authed : StreamHub → StreamHub
unfolding bump
count_authed h = record h {
  counters = record h.counters { authed_total = bump h.counters.authed_total };
}

-- The rights of a user that a ticket lets in.
unfoldable pub authenticated : (ℤ → List ℤ) → ℕ → User → StreamHub → StreamHub
unfolding count_authed
authenticated cameras_of s user h =
    let is_admin = int_beq user.role_id (pos 1) in
    count_authed (record h {
      properties =
          insert s
            (record (properties_of s h) { authed = true; is_admin = is_admin; user_id = user.id })
            h.properties;
      allowed_cameras =
          if is_admin then h.allowed_cameras else insert s (cameras_of user.id) h.allowed_cameras;
    })

-- The answer to a ticket that is valid by itself.
unfoldable pub admit :
    (ℤ → List ℤ) → ℕ → User → StreamHub → TicketStore × Bool → StreamHub × List (ℕ × Reply)
unfolding bump
admit cameras_of s user h (store, true) =
    (authenticated cameras_of s user (record h { tickets = store }), (s, auth_ok) ∷ [])
admit cameras_of s user h (store, false) = fail_auth s ticket_already_used (record h {
  tickets = store;
  counters = record h.counters { ticket_replay_total = bump h.counters.ticket_replay_total };
})

unfoldable pub with_ticket :
    (ℤ → List ℤ) → ℤ → ℕ → Option (User × Text) → StreamHub → StreamHub × List (ℕ × Reply)
with_ticket cameras_of now s none h = fail_auth s invalid_ticket h
with_ticket cameras_of now s (some (user, jti)) h =
    admit cameras_of s user h (use_ticket now jti h.tickets)

-- AUTH in a hub that wants tickets.
unfoldable pub with_token :
    HubConfig → (ℤ → List ℤ) → ℤ → ℕ → Text → Option Text → StreamHub → StreamHub × List (ℕ × Reply)
with_token cfg cameras_of now s client_ip none h = fail_auth s token_required h
with_token cfg cameras_of now s client_ip (some token) h =
    with_ticket cameras_of now s (decode_ws_ticket_jwt cfg.jwt cfg.auth token client_ip) h

-- Without authentication every socket that asks is an administrator.
unfoldable pub authenticate_all : ℕ → StreamHub → StreamHub × List (ℕ × Reply)
unfolding count_authed
authenticate_all s h = (
  count_authed (record h {
    properties =
        insert s (record (properties_of s h) { authed = true; is_admin = true }) h.properties;
  }),
  (s, auth_ok) ∷ [],
)

-- The socket may subscribe to the camera.
unfoldable pub may_subscribe : ℕ → ℤ → StreamHub → Bool
may_subscribe s camera h =
    (properties_of s h).is_admin
    || int_beq camera (pos 0)
    || (elim (lookup s h.allowed_cameras) [ none ↦ false | some l ↦ has_camera camera l ])

unfoldable pub subscribe : (ℕ → Bool) → ℕ → ℤ → StreamHub → StreamHub × List (ℕ × Reply)
unfolding init_of
subscribe live s camera h =
    if may_subscribe s camera h
    then (
      add_client live camera s (remove_client live s h),
      init_of s camera h ++ (s, subscribed camera) ∷ [],
    )
    else (h, (s, subscribe_denied camera) ∷ [])

-- A message other than AUTH.
unfoldable pub process_other : (ℕ → Bool) → ℕ → Message → StreamHub → StreamHub × List (ℕ × Reply)
process_other live s (camera_message camera) h = subscribe live s camera h
process_other live s ping_message h = (h, (s, pong) ∷ [])
process_other live s _ h = (h, [])

unfoldable pub process_text_message :
    HubConfig
    → (ℕ → Bool)
    → (ℤ → List ℤ)
    → ℤ
    → ℕ
    → Text
    → Message
    → StreamHub
    → StreamHub × List (ℕ × Reply)
process_text_message cfg live cameras_of now s client_ip (auth_message token) h =
    if cfg.auth.enabled
    then with_token cfg cameras_of now s client_ip token h
    else authenticate_all s h
process_text_message cfg live cameras_of now s client_ip not_json h = (h, [])
process_text_message cfg live cameras_of now s client_ip message h =
    if cfg.auth.enabled && not (properties_of s h).authed
    then fail_auth s auth_required h
    else process_other live s message h

-- ===== src/StreamHub/State.antt =====
-- The state of the hub of cpp-backend/src/streaming/camera_stream_manager.cpp, its messages and replies, and
-- the lists of clients. `live` says which sockets a QPointer still reaches at the time of a call.
use vms_ai.Prelude.{
  ℕ, ◌+◌, ◌%◌, ◌==◌, ℤ, pos, Bool, false, not, ◌||◌, Option, none, some, List, [], ◌∷◌, ◌++◌,
  length, if◌then◌else◌, Map, lookup, insert, erase, nat_eq, int_eq, text_eq, int_beq, Text,
}
use vms_ai.Auth.Users.{AuthConfig}
use vms_ai.Auth.Jwt.{JwtLibrary}
use vms_ai.StreamHub.Slots.{u64_mod, ConnSlots}
use vms_ai.StreamHub.Tickets.{TicketStore, no_tickets}

-- The properties of a socket; false where one is not set.
pub record Properties : Type 0 where
  pub authed : Bool
  pub is_admin : Bool
  pub user_id : ℤ
  pub peer_ip : Text

abbrev pub unset : Properties
unset = record { authed = false; is_admin = false; user_id = pos 0; peer_ip = [] }

pub record Counters : Type 0 where
  pub conn_total : ℕ
  pub authed_total : ℕ
  pub auth_failed_total : ℕ
  pub ticket_replay_total : ℕ
  pub preauth_timeout_total : ℕ
  pub conn_cap_rejected_total : ℕ
  pub disconnects_total : ℕ

pub record StreamHub : Type 0 where
  pub properties : Map ℕ Properties
  pub camera_clients : Map ℤ (List ℕ)
  pub socket_to_camera : Map ℕ ℤ
  pub allowed_cameras : Map ℕ (List ℤ)
  pub init_packets : Map ℤ Text
  pub tickets : TicketStore
  pub slots : ConnSlots
  pub counters : Counters

pub record HubConfig : Type 0 where
  pub jwt : JwtLibrary
  pub auth : AuthConfig
  pub max_global : ℤ
  pub max_per_ip : ℤ

-- What is sent to a socket.
pub data Reply : Type 0 where
  auth_ok : Reply
  token_required : Reply
  ticket_already_used : Reply
  invalid_ticket : Reply
  auth_required : Reply
  subscribe_denied : ℤ → Reply
  subscribed : ℤ → Reply
  pong : Reply
  init_packet : Text → Reply
  closed : Reply

-- What a message says: AUTH with its token, a camera to subscribe to, a ping, or nothing of these, where
-- also a camera that is no number counts. A message that the parser refuses is not_json.
pub data Message : Type 0 where
  not_json : Message
  auth_message : Option Text → Message
  camera_message : ℤ → Message
  ping_message : Message
  other_message : Message

unfoldable pub bump : ℕ → ℕ
bump n = (n + 1) % u64_mod

abbrev pub or_unset : Option Properties → Properties
or_unset none = unset
or_unset (some p) = p

unfoldable pub properties_of : ℕ → StreamHub → Properties
properties_of s h = or_unset (lookup s h.properties)

abbrev pub or_empty : Option (List ℕ) → List ℕ
or_empty none = []
or_empty (some l) = l

unfoldable pub clients_of : ℤ → StreamHub → List ℕ
clients_of camera h = or_empty (lookup camera h.camera_clients)

unfoldable pub has_socket : ℕ → List ℕ → Bool
has_socket s [] = false
has_socket s (t ∷ l) = t == s || has_socket s l

unfoldable pub has_camera : ℤ → List ℤ → Bool
has_camera c [] = false
has_camera c (d ∷ l) = int_beq d c || has_camera c l

-- The clients that a removal leaves.
unfoldable pub others : (ℕ → Bool) → ℕ → List ℕ → List ℕ
others live s [] = []
others live s (t ∷ l) =
    let rest = others live s l in if not (live t) || t == s then rest else t ∷ rest

-- The clients of a camera, no entry where none is left.
unfoldable pub with_clients : ℤ → List ℕ → Map ℤ (List ℕ) → Map ℤ (List ℕ)
with_clients camera [] m = erase camera m
with_clients camera (t ∷ l) m = insert camera (t ∷ l) m

-- `found` is what the map has for the camera.
unfoldable pub without_client :
    (ℕ → Bool) → ℕ → ℤ → Option (List ℕ) → Map ℤ (List ℕ) → Map ℤ (List ℕ)
without_client live s camera none m = m
without_client live s camera (some l) m = with_clients camera (others live s l) m

-- From the clients of the camera that it has subscribed to.
unfoldable pub remove_from : (ℕ → Bool) → ℕ → Option ℤ → StreamHub → StreamHub
remove_from live s none h = h
remove_from live s (some camera) h = record h {
  socket_to_camera = erase s h.socket_to_camera;
  camera_clients = without_client live s camera (lookup camera h.camera_clients) h.camera_clients;
}

unfoldable pub remove_client : (ℕ → Bool) → ℕ → StreamHub → StreamHub
remove_client live s h = remove_from live s (lookup s h.socket_to_camera) h

unfoldable pub add_client : (ℕ → Bool) → ℤ → ℕ → StreamHub → StreamHub
add_client live camera s h = record h {
  camera_clients = insert camera (others live s (clients_of camera h) ++ s ∷ []) h.camera_clients;
  socket_to_camera = insert s camera h.socket_to_camera;
}

-- The cached init segment of the camera.
unfoldable pub init_of : ℕ → ℤ → StreamHub → List (ℕ × Reply)
init_of s camera h = elim (lookup camera h.init_packets) [
  | none ↦ []
  | some packet ↦ if length packet == 0 then [] else (s, init_packet packet) ∷ []
]

-- Before the first connection.
abbrev pub no_hub : StreamHub
no_hub = record {
  properties = [];
  camera_clients = [];
  socket_to_camera = [];
  allowed_cameras = [];
  init_packets = [];
  tickets = no_tickets;
  slots = record { per_ip = []; current = 0; peak = 0 };
  counters = record {
    conn_total = 0;
    authed_total = 0;
    auth_failed_total = 0;
    ticket_replay_total = 0;
    preauth_timeout_total = 0;
    conn_cap_rejected_total = 0;
    disconnects_total = 0;
  };
}

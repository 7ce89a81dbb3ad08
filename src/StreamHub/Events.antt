-- ===== src/StreamHub/Events.antt =====
-- cpp-backend/src/streaming/camera_stream_manager.cpp: who gets the events of a camera.
use vms_ai.Prelude.{
  ℕ, ℤ, pos, Bool, true, none, some, List, [], ◌∷◌, ◌++◌, length, if◌then◌else◌, lookup, nat_eq,
  int_eq, text_eq, int_beq,
}
use vms_ai.StreamHub.State.{StreamHub, clients_of, has_camera}

-- The sockets among the clients that a QPointer reaches.
unfoldable pub reached : (ℕ → Bool) → List ℕ → List ℕ
reached live [] = []
reached live (s ∷ l) = let rest = reached live l in if live s then s ∷ rest else rest

unfoldable pub snapshot_clients : (ℕ → Bool) → ℤ → StreamHub → List ℕ
unfolding reached clients_of
snapshot_clients live camera h = reached live (clients_of camera h)

-- Without an entry the socket is an administrator's.
unfoldable pub in_scope : ℤ → StreamHub → ℕ → Bool
in_scope camera h s = elim (lookup s h.allowed_cameras) [
  | none ↦ true
  | some l ↦ has_camera camera l
]

unfoldable pub scoped : ℤ → StreamHub → List ℕ → List ℕ
scoped camera h [] = []
scoped camera h (s ∷ l) =
    let rest = scoped camera h l in if in_scope camera h s then s ∷ rest else rest

-- The sockets that get an event.
unfoldable pub broadcast_event : (ℕ → Bool) → ℤ → StreamHub → List ℕ
broadcast_event live camera h =
    if int_beq camera (pos 0)
    then snapshot_clients live (pos 0) h
    else snapshot_clients live camera h ++ scoped camera h (snapshot_clients live (pos 0) h)

unfoldable pub get_client_count : ℤ → StreamHub → ℕ
unfolding clients_of
get_client_count camera h = length (clients_of camera h)

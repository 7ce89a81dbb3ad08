-- ===== src/StreamHub/Rights/Sockets.antt =====
-- Connections, disconnections and tickets keep what the hub has granted.
use vms_ai.Prelude.{
  ℕ, ◌==◌, ==_iff, ◌≡◌, refl, sym, ap, ◌∙◌, ℤ, pos, Bool, true, false, none, some, List,
  if◌then◌else◌, lookup, insert, erase, lookup-insert, lookup-erase, nat_eq, int_eq, Text, arith,
}
use vms_ai.Auth.Users.{User}
use vms_ai.StreamHub.Tickets.{TicketStore}
use vms_ai.StreamHub.Places.{Placed, remove_from-has}
use vms_ai.StreamHub.Rights.{Grants, granted, IsGranted}
use vms_ai.StreamHub.Slots.{ConnSlots}
use vms_ai.StreamHub.Rights.Steps.{
  remove_from-same, fail_auth-IsGranted, with_grant, authenticated-IsGranted,
}
use vms_ai.StreamHub.State.{
  Counters, StreamHub, clients_of, has_socket, or_unset, properties_of, remove_client,
  ticket_already_used, unset,
}
use vms_ai.StreamHub.Hub.{admit, socket_disconnected, with_slot}

disconnected-has :
    (live : ℕ → Bool) (s t : ℕ) (c : ℤ) (h : StreamHub)
    → Placed h
    → has_socket t (clients_of c (socket_disconnected live s h)) ≡ true
    → (has_socket t (clients_of c h) ≡ true)
      × ((t == s) ≡ false)
      × (lookup t (socket_disconnected live s h).socket_to_camera ≡ some c)
unfolding socket_disconnected remove_client clients_of
disconnected-has live s t c h p k =
    remove_from-has live s t c (lookup s h.socket_to_camera) h refl p k

disconnected-properties :
    (live : ℕ → Bool) (s t : ℕ) (h : StreamHub)
    → properties_of t (socket_disconnected live s h) ≡ (if s == t then unset else properties_of t h)
unfolding socket_disconnected remove_client properties_of
disconnected-properties live s t h =
    let (_, _, same) = remove_from-same live s t (lookup s h.socket_to_camera) h in
    ap (λ m. or_unset (lookup t (erase s m))) same
    ∙ ap or_unset (lookup-erase s t h.properties)
    ∙ ground arith

disconnected-scopes :
    (live : ℕ → Bool) (s t : ℕ) (h : StreamHub)
    → lookup t (socket_disconnected live s h).allowed_cameras
      ≡ (if s == t then none else lookup t h.allowed_cameras)
unfolding socket_disconnected remove_client
disconnected-scopes live s t h =
    let (_, same, _) = remove_from-same live s t (lookup s h.socket_to_camera) h in
    ap (λ m. lookup t (erase s m)) same ∙ lookup-erase s t h.allowed_cameras

pub disconnected-IsGranted :
    (live : ℕ → Bool) (s : ℕ) (h : StreamHub) (grants : ℕ → Grants)
    → IsGranted h grants
    → IsGranted (socket_disconnected live s h) grants
disconnected-IsGranted live s h grants v = record {
  place = λ t c k. (left t c k).2;
  admin = λ t k. ground (arith, after t, v.admin t);
  scope = λ t l c e k. v.scope t l c (ground (arith, scopes t)) k;
  unscoped = λ t k e. ground (arith, after t, scopes t, v.unscoped t);
  clients = λ t c other k. v.clients t c other (left t c k).0;
  listeners = λ t k.
      let (old, away, _) = left t (pos 0) k in
      let authed = v.listeners t old in ground (arith, after t, ==_iff s t, ==_iff t s);
}
  where
    left :
        (t : ℕ) (c : ℤ)
        → has_socket t (clients_of c (socket_disconnected live s h)) ≡ true
        → (has_socket t (clients_of c h) ≡ true)
          × ((t == s) ≡ false)
          × (lookup t (socket_disconnected live s h).socket_to_camera ≡ some c)
    left t c k = disconnected-has live s t c h v.place k

    after :
        (t : ℕ)
        → properties_of t (socket_disconnected live s h)
          ≡ (if s == t then unset else properties_of t h)
    after t = disconnected-properties live s t h

    scopes :
        (t : ℕ)
        → lookup t (socket_disconnected live s h).allowed_cameras
          ≡ (if s == t then none else lookup t h.allowed_cameras)
    scopes t = disconnected-scopes live s t h

-- A socket that was not connected gets its slot, or is turned away.
pub with_slot-IsGranted :
    (s : ℕ) (ip : Text) (h : StreamHub) (r : ConnSlots × Bool) (grants : ℕ → Grants)
    → lookup s h.properties ≡ none
    → IsGranted h grants
    → IsGranted (with_slot s ip h r).0 grants
unfolding with_slot properties_of clients_of
with_slot-IsGranted s ip h (slots, false) grants new v = record {
  place = v.place;
  admin = v.admin;
  scope = v.scope;
  unscoped = v.unscoped;
  clients = v.clients;
  listeners = v.listeners;
}
with_slot-IsGranted s ip h (slots, true) grants new v = record {
  place = v.place;
  admin = λ t k. ground (arith, after t, v.admin t);
  scope = v.scope;
  unscoped = λ t k e. ground (arith, after t, v.unscoped t);
  clients = v.clients;
  listeners = λ t k. ground (arith, after t, v.listeners t k, ==_iff s t, new_t t);
}
  where
    after :
        (t : ℕ)
        → or_unset (lookup t (insert s (record unset { peer_ip = ip }) h.properties))
          ≡ (if s == t then record unset { peer_ip = ip } else or_unset (lookup t h.properties))
    after t = ap or_unset (lookup-insert s t _ h.properties) ∙ ground arith

    new_t : (t : ℕ) → s ≡ t → or_unset (lookup t h.properties) ≡ unset
    new_t t e = ap (λ x. or_unset (lookup x h.properties)) (sym e) ∙ ap or_unset new

-- The rights do not depend on the tickets and the counters.
other_fields :
    (h : StreamHub) (store : TicketStore) (counters : Counters) (grants : ℕ → Grants)
    → IsGranted h grants
    → IsGranted (record h { tickets = store; counters = counters }) grants
unfolding properties_of clients_of
other_fields h store counters grants v = record {
  place = v.place;
  admin = v.admin;
  scope = v.scope;
  unscoped = v.unscoped;
  clients = v.clients;
  listeners = v.listeners;
}

-- A ticket that is valid by itself, by the answer to its id.
pub admit-IsGranted :
    (cameras_of : ℤ → List ℤ) (s : ℕ) (user : User) (h : StreamHub) (r : TicketStore × Bool)
    (grants : ℕ → Grants)
    → IsGranted h grants
    → IsGranted
        (admit cameras_of s user h r).0
        (if r.1 then with_grant s (granted cameras_of user (grants s)) grants else grants)
unfolding admit
admit-IsGranted cameras_of s user h (store, true) grants v =
    authenticated-IsGranted cameras_of s user (record h { tickets = store }) grants
      (other_fields h store h.counters grants v)
admit-IsGranted cameras_of s user h (store, false) grants v =
    fail_auth-IsGranted s ticket_already_used _ grants (other_fields h store _ grants v)

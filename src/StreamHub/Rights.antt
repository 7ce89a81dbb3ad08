-- ===== src/StreamHub/Rights.antt =====
-- Who gets the events of a camera, in a hub that wants tickets.
pub mod Steps
pub mod Sockets
pub mod History
use vms_ai.Prelude.{
  ℕ, ◌+◌, ◌==◌, ==_iff, ◌≡◌, refl, sym, ap, ◌∙◌, ◌⊎◌, inl, inr, ℤ, pos, int_beq, int_beq_iff, Bool,
  true, false, not, ◌&&◌, ◌||◌, Bool-cases, Option, none, some, Option-cases, List, [], ◌∷◌, ◌++◌,
  if◌then◌else◌, Map, lookup, insert, erase, lookup-insert, lookup-erase, nat_eq, int_eq, Text,
  arith,
}
use vms_ai.Auth.Users.{User}
use vms_ai.Auth.Jwt.{decode_ws_ticket_jwt}
use vms_ai.StreamHub.Tickets.{TicketStore, use_ticket}
use vms_ai.StreamHub.Places.{Placed, remove_from-has, subscribed-has}
use vms_ai.StreamHub.State.{
  HubConfig, Message, Properties, StreamHub, add_client, auth_message, camera_message, clients_of,
  has_camera, has_socket, or_unset, other_message, ping_message, properties_of, remove_client,
  remove_from, unset,
}
use vms_ai.StreamHub.Hub.{
  admit, auth_timeout, authenticated, count_authed, fail_auth, may_subscribe, on_new_connection,
  process_other, process_text_message, socket_disconnected, subscribe, with_ticket, with_token,
}
use vms_ai.StreamHub.Events.{broadcast_event, in_scope, reached, scoped, snapshot_clients}

-- What the tickets of a socket have given it the right to.
pub record Grants : Type 0 where
  pub as_admin : Bool
  pub cameras : List ℤ

abbrev pub no_grants : Grants
no_grants = record { as_admin = false; cameras = [] }

abbrev pub may : ℤ → Grants → Bool
may c g = g.as_admin || has_camera c g.cameras

-- The grants with those of a user.
abbrev pub granted : (ℤ → List ℤ) → User → Grants → Grants
granted cameras_of user g =
    if int_beq user.role_id (pos 1)
    then record g { as_admin = true }
    else record g { cameras = cameras_of user.id ++ g.cameras }

-- The hub and what it has granted agree.
pub record IsGranted (h : StreamHub) (grants : ℕ → Grants) : Type 0 where
  pub place : Placed h
  pub admin : (s : ℕ) → (properties_of s h).is_admin ≡ true → (grants s).as_admin ≡ true
  pub scope :
      (s : ℕ) (l : List ℤ) (c : ℤ)
      → lookup s h.allowed_cameras ≡ some l
      → has_camera c l ≡ true
      → may c (grants s) ≡ true
  pub unscoped :
      (s : ℕ)
      → (properties_of s h).authed ≡ true
      → lookup s h.allowed_cameras ≡ none
      → (grants s).as_admin ≡ true
  pub clients :
      (s : ℕ) (c : ℤ)
      → int_beq c (pos 0) ≡ false
      → has_socket s (clients_of c h) ≡ true
      → may c (grants s) ≡ true
  pub listeners :
      (s : ℕ) → has_socket s (clients_of (pos 0) h) ≡ true → (properties_of s h).authed ≡ true

reached-has :
    (live : ℕ → Bool) (s : ℕ) (l : List ℕ)
    → has_socket s (reached live l) ≡ true
    → has_socket s l ≡ true
unfolding reached has_socket
reached-has live s [] h = h
reached-has live s (t ∷ l) h = ground (arith, reached-has live s l)

scoped-has :
    (c : ℤ) (h : StreamHub) (s : ℕ) (l : List ℕ)
    → has_socket s (scoped c h l) ≡ true
    → (has_socket s l ≡ true) × (in_scope c h s ≡ true)
unfolding scoped has_socket
scoped-has c h s [] k = cc
scoped-has c h s (t ∷ l) k = elim (Bool-cases (in_scope c h t)) [
  | inl b ↦
      let k' = rw b at k in
      elim (Bool-cases (t == s)) [
        | inl e ↦ (ground arith, ap (in_scope c h) (sym ((==_iff t s).0 e)) ∙ b)
        | inr e ↦ let (a, f) = scoped-has c h s l (ground arith) in (ground arith, f)
      ]
  | inr b ↦ let (a, e) = scoped-has c h s l (rw b at k) in (ground arith, e)
]

has-append_cases :
    (s : ℕ) (l m : List ℕ)
    → has_socket s (l ++ m) ≡ true
    → (has_socket s l ≡ true) ⊎ (has_socket s m ≡ true)
unfolding has_socket
has-append_cases s [] m h = inr h
has-append_cases s (t ∷ l) m h = elim (Bool-cases (t == s)) [
  | inl b ↦ inl (ground arith)
  | inr b ↦ elim (has-append_cases s l m (ground arith)) [
    | inl a ↦ inl (ground arith)
    | inr a ↦ inr a
  ]
]

in_scope-some :
    (c : ℤ) (h : StreamHub) (s : ℕ) (l : List ℤ)
    → lookup s h.allowed_cameras ≡ some l
    → in_scope c h s ≡ true
    → has_camera c l ≡ true
unfolding in_scope
in_scope-some c h s l e k = ground arith

-- Who gets an event has the right to it.
pub broadcast-may :
    (live : ℕ → Bool) (s : ℕ) (c : ℤ) (h : StreamHub) (grants : ℕ → Grants)
    → IsGranted h grants
    → int_beq c (pos 0) ≡ false
    → has_socket s (broadcast_event live c h) ≡ true
    → may c (grants s) ≡ true
unfolding broadcast_event snapshot_clients
broadcast-may live s c h grants v other k =
    elim (has-append_cases s (reached live (clients_of c h))
      (scoped c h (reached live (clients_of (pos 0) h))) (rw other at k)) [
        | inl a ↦ v.clients s c other (reached-has live s (clients_of c h) a)
        | inr a ↦
            let (b, inside) = scoped-has c h s (reached live (clients_of (pos 0) h)) a in
            let authed = v.listeners s (reached-has live s (clients_of (pos 0) h) b) in
            elim (Option-cases (lookup s h.allowed_cameras)) [
              | inl e ↦ let all = v.unscoped s authed e in ground arith
              | inr (l, e) ↦ v.scope s l c e (in_scope-some c h s l e inside)
            ]
      ]

-- ===== src/StreamHub/Tests.antt =====
-- Runs of the hub, and its theorems at concrete histories.
use vms_ai.Prelude.{
  Text, arith, ◌≡◌, refl, pos, ◌+ℤ◌, true, false, none, some, [], ◌∷◌, List, ℕ, Bool, bytes,
  text_beq, if◌then◌else◌, lookup, insert, erase, arith,
}
use vms_ai.MediaSigner.{starts_with}
use vms_ai.Auth.Numbers.{stoi, occurrences, drop_prefix}
use vms_ai.Auth.Issue.{built, with_ip, sign_user_token, create_ws_ticket_jwt}
use vms_ai.Auth.Issue.Readings.{ReadsBack, HasInts}
use vms_ai.Auth.Users.{User, blank_user}
use vms_ai.Auth.Jwt
use vms_ai.StreamHub.Entry.{IsLetIn, opens_hub}
use vms_ai.StreamHub.Hub.{process_text_message}
use vms_ai.Auth.Jwt.{
  Claims, string, JwtLibrary, checked, string_or, string_claim, boolean_or, version_claim,
  subject_id, user_of_claims, decode_jwt_user_for_use, ip_allowed, decode_ws_ticket_jwt,
}
use vms_ai.StreamHub.Slots.{try_reserve_conn_slot, reserve_for_ip, take_slot, count_or_zero}
use vms_ai.StreamHub.Counts.{
  ConnEvent, connects, goes, IsCounted, history, no_connections, connections-IsCounted,
}
use vms_ai.StreamHub.Tickets.{has, evict, insert_new, use_ticket, no_tickets}
use vms_ai.StreamHub.Replays.{attempts, use_ticket_once}
use vms_ai.StreamHub.State
use vms_ai.StreamHub.Hub
use vms_ai.StreamHub.Events
use vms_ai.StreamHub.State.{HubConfig, auth_message, camera_message, has_camera, has_socket, no_hub}
use vms_ai.StreamHub.Events.{broadcast_event}
use vms_ai.StreamHub.Rights.{may, no_grants}
use vms_ai.StreamHub.Rights.History.{
  HubEvent, says, run, step, connect_new, rights, broadcast_event-rights,
}

abbrev two_connect : List ConnEvent
two_connect =
    connects (bytes "10.0.0.1") ∷ goes (bytes "10.0.0.1") ∷ connects (bytes "10.0.0.2") ∷ []

connections-IsCounted_example :
    IsCounted (pos 2) (pos 1) (history (pos 2) (pos 1) two_connect no_connections)
connections-IsCounted_example =
    connections-IsCounted (pos 2) (pos 1) two_connect (refl, (tt, (refl, tt))) (omega arith)

let_in : (use_ticket (pos 5) (bytes "t1") (attempts [] no_tickets)).1 ≡ true
unfolding attempts use_ticket insert_new evict has
let_in = refl

use_ticket_once_example :
    (use_ticket (pos 20) (bytes "t1") (
      attempts
        ((pos 9, bytes "t2") ∷ [])
        (use_ticket (pos 5) (bytes "t1") (attempts [] no_tickets)).0)).1
    ≡ false
unfolding ◌+ℤ◌
use_ticket_once_example =
    use_ticket_once [] ((pos 9, bytes "t2") ∷ []) (bytes "t1") (pos 5) (pos 20) let_in (refl, tt)
      refl

-- A library that knows one ticket, of an operator.
abbrev one_ticket : JwtLibrary
one_ticket = record {
  decode = λ t.
      if text_beq t (bytes "a.b.c")
      then some (
          (bytes "sub", string (bytes "7"))
          ∷ (bytes "username", string (bytes "ann"))
          ∷ (bytes "role_id", string (bytes "3"))
          ∷ (bytes "token_use", string (bytes "ws_ticket"))
          ∷ (bytes "jti", string (bytes "t1"))
          ∷ [])
      else none;
  verifies = λ key issuer t. true;
}

abbrev config : HubConfig
config = record {
  jwt = one_ticket;
  auth = record { enabled = true; secret_key = bytes "key"; token_expire_minutes = pos 60 };
  max_global = pos 0;
  max_per_ip = pos 0;
}

-- Ann subscribes to the global channel; camera 4 is hers.
abbrev ann_listens : List ((ℕ → Bool) × HubEvent)
ann_listens =
    ((λ _. true), HubEvent.connects 1 (bytes "10.0.0.1"))
    ∷ (
      (λ _. true),
      says 1 (bytes "10.0.0.1") (pos 5) (λ _. pos 4 ∷ []) (auth_message (some (bytes "a.b.c"))),
    )
    ∷ ((λ _. true), says 1 (bytes "10.0.0.1") (pos 6) (λ _. []) (camera_message (pos 0)))
    ∷ []

ann_gets : has_socket 1 (broadcast_event (λ _. true) (pos 4) (run config ann_listens no_hub)) ≡ true
unfolding run step connect_new Hub.on_new_connection Hub.with_slot State.bump
    Hub.process_text_message Hub.with_token Hub.with_ticket Hub.admit Hub.authenticated
    Hub.count_authed Hub.process_other Hub.subscribe Hub.may_subscribe State.remove_client
    State.remove_from State.add_client State.others State.properties_of State.clients_of
    State.init_of Events.broadcast_event Events.snapshot_clients Events.reached Events.scoped
    Events.in_scope has_socket has_camera lookup insert erase use_ticket insert_new evict has
    try_reserve_conn_slot reserve_for_ip take_slot count_or_zero decode_ws_ticket_jwt
    decode_jwt_user_for_use checked user_of_claims subject_id string_claim string_or boolean_or
    version_claim ip_allowed stoi Hub.fail_auth
ann_gets = refl

ann_does_not_get :
    has_socket 1 (broadcast_event (λ _. true) (pos 5) (run config ann_listens no_hub)) ≡ false
unfolding run step connect_new Hub.on_new_connection Hub.with_slot State.bump
    Hub.process_text_message Hub.with_token Hub.with_ticket Hub.admit Hub.authenticated
    Hub.count_authed Hub.process_other Hub.subscribe Hub.may_subscribe State.remove_client
    State.remove_from State.add_client State.others State.properties_of State.clients_of
    State.init_of Events.broadcast_event Events.snapshot_clients Events.reached Events.scoped
    Events.in_scope has_socket has_camera lookup insert erase use_ticket insert_new evict has
    try_reserve_conn_slot reserve_for_ip take_slot count_or_zero decode_ws_ticket_jwt
    decode_jwt_user_for_use checked user_of_claims subject_id string_claim string_or boolean_or
    version_claim ip_allowed stoi Hub.fail_auth
ann_does_not_get = refl

broadcast_event-rights_example :
    may (pos 4) (rights config ann_listens no_hub (λ t. no_grants) 1) ≡ true
broadcast_event-rights_example =
    broadcast_event-rights config ann_listens (λ _. true) 1 (pos 4) refl refl ann_gets

abbrev bob : User
bob = record blank_user {
  id = pos 9;
  username = bytes "bob";
  role_id = pos 3;
  is_active = true;
  token_version = pos 4;
}

bob-HasInts : HasInts bob
bob-HasInts = record { id = omega arith; role_id = omega arith; token_version = omega arith }

abbrev bobs_claims : Claims
bobs_claims =
    built (λ i. 0) (pos 1000) bob (pos 30) (bytes "ws_ticket") (with_ip (bytes "10.0.0.1"))

-- A library that knows one ticket, of a user who is no administrator.
abbrev bobs_config : HubConfig
bobs_config = record config {
  jwt = record { decode = λ t. some bobs_claims; verifies = λ key who t. true };
}

abbrev signs : Text → Claims → Text
signs key claims = bytes "a.b.c"

bobs_ticket : ReadsBack bobs_config.jwt (pos 1010) (bytes "key") (bytes "a.b.c") bobs_claims
unfolding occurrences
bobs_ticket = record { decoded = refl; verified = λ who from until a b c d e. refl; parts = refl }

opens_hub_example :
    IsLetIn
      (λ u. pos 4 ∷ pos 6 ∷ [])
      no_hub
      1
      bob
      (process_text_message bobs_config
        (λ t. true)
        (λ u. pos 4 ∷ pos 6 ∷ [])
        (pos 5)
        1
        (bytes "10.0.0.1")
        (auth_message (
          some (
            create_ws_ticket_jwt signs bobs_config.auth
              (λ i. 0)
              (pos 1000)
              bob
              (bytes "10.0.0.1"))))
        no_hub)
unfolding ◌+ℤ◌ use_ticket insert_new evict has create_ws_ticket_jwt sign_user_token Jwt.ip_mismatch
    Jwt.normalized starts_with drop_prefix
opens_hub_example =
    opens_hub bobs_config signs (λ i. 0) (pos 1000) (pos 1010) bob bob-HasInts (bytes "10.0.0.1")
      (λ t. true) (λ u. pos 4 ∷ pos 6 ∷ []) (pos 5) 1 (bytes "10.0.0.1") no_hub refl refl refl
      bobs_ticket refl refl

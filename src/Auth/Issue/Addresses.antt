-- ===== src/Auth/Issue/Addresses.antt =====
-- The client that a ticket is for: the test of the address in jwt_utils.cpp.
use vms_ai.Prelude.{
  ◌≡◌, refl, ap, ◌∙◌, ◌==◌, ◌||◌, ◌&&◌, not, Bool, true, false, [], ◌∷◌, length, take, drop,
  if◌then◌else◌, Text, bytes, text_beq,
}
use vms_ai.MediaSigner.{starts_with}
use vms_ai.Auth.Numbers.{drop_prefix}
use vms_ai.Auth.Jwt.{normalized, ip_mismatch}

-- An address; of an IPv4 address that is written in IPv6, what stands behind the first seven
-- characters, "::ffff:".
abbrev pub plain : Text → Text
plain ip = if text_beq (take 7 ip) (bytes "::ffff:") then drop 7 ip else ip

abbrev pub is_local : Text → Bool
is_local ip =
    text_beq ip (bytes "127.0.0.1") || text_beq ip (bytes "::1") || text_beq ip (bytes "localhost")

-- A ticket that is bound to no address, or a client without one, is let in; so is the address that it is
-- bound to, and a local one.
abbrev pub lets_in : Text → Text → Bool
lets_in [] peer_ip = true
lets_in (x ∷ ip) peer_ip =
    length peer_ip == 0 || (is_local (plain peer_ip) || text_beq (plain (x ∷ ip)) (plain peer_ip))

starts_with-take :
    (s prefix : Text) → starts_with s prefix ≡ text_beq (take (length prefix) s) prefix
unfolding starts_with
starts_with-take s [] = refl
starts_with-take [] (c ∷ prefix) = refl
starts_with-take (d ∷ s) (c ∷ prefix) = ap (λ b. d == c && b) (starts_with-take s prefix)

drop_prefix-drop : (s prefix : Text) → drop_prefix s prefix ≡ drop (length prefix) s
unfolding drop_prefix
drop_prefix-drop s [] = refl
drop_prefix-drop [] (c ∷ prefix) = refl
drop_prefix-drop (d ∷ s) (c ∷ prefix) = drop_prefix-drop s prefix

normalized-plain : (ip : Text) → normalized ip ≡ plain ip
unfolding normalized
normalized-plain ip =
    ap (λ b. if b then drop_prefix ip (bytes "::ffff:") else ip)
      (starts_with-take ip (bytes "::ffff:"))
    ∙ ap (λ t. if text_beq (take 7 ip) (bytes "::ffff:") then t else ip)
        (drop_prefix-drop ip (bytes "::ffff:"))

none_of : (a b c d : Bool) → (not a && not b && not c && not d) ≡ not ((a || b || c) || d)
none_of true b c d = refl
none_of false true c d = refl
none_of false false true d = refl
none_of false false false d = refl

-- The code's test of two addresses.
pub ip_mismatch-plain :
    (bound_ip peer_ip : Text)
    → ip_mismatch bound_ip peer_ip
      ≡ not (is_local (plain peer_ip) || text_beq (plain bound_ip) (plain peer_ip))
unfolding ip_mismatch
ip_mismatch-plain bound_ip peer_ip =
    rw (normalized-plain bound_ip, normalized-plain peer_ip)
      (none_of (text_beq (plain peer_ip) (bytes "127.0.0.1"))
        (text_beq (plain peer_ip) (bytes "::1")) (text_beq (plain peer_ip) (bytes "localhost"))
        (text_beq (plain bound_ip) (plain peer_ip)))

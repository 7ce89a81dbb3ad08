-- ===== src/UrlValidator.antt =====
-- cpp-backend/src/utils/url_validator.cpp: the gate in front of requests to configured URLs. The
-- resolver (getaddrinfo), inet_ntop and std::stoi are parameters. An address is the number of its 32
-- or 128 bits in host order.
pub mod Blocks
pub mod Gate
mod Tests
use vms_ai.Prelude.{
  ℕ, ℤ, pos, int_beq, ◌+◌, ◌-◌, ◌*◌, ◌/◌, ◌%◌, ◌^◌, Bool, true, false, not, ◌&&◌, ◌||◌, Option,
  none, some, List, [], ◌∷◌, ◌++◌, ltb, leb, ◌==◌, length, drop, take, if◌then◌else◌, Text,
  text_beq, bytes,
}

-- Octet i of the address, and the reason for a refusal.
unfoldable pub octet : ℕ → ℕ → ℕ
octet addr i = addr / 2 ^ (8 * (3 - i)) % 256

unfoldable pub private_octets : ℕ → ℕ → Option Text
private_octets a b =
    if a == 0
    then some (bytes "0.0.0.0/8 (this network)")
    else if a == 10
    then some (bytes "10.0.0.0/8 (RFC1918)")
    else if a == 127
    then some (bytes "127.0.0.0/8 (loopback)")
    else if (a == 169) && (b == 254)
    then some (bytes "169.254.0.0/16 (link-local + cloud metadata)")
    else if (a == 172) && (leb 16 b && leb b 31)
    then some (bytes "172.16.0.0/12 (RFC1918)")
    else if (a == 192) && (b == 168)
    then some (bytes "192.168.0.0/16 (RFC1918)")
    else if (a == 192) && (b == 0)
    then some (bytes "192.0.0.0/24 (IETF)")
    else if (a == 198) && ((b == 18) || (b == 19))
    then some (bytes "198.18.0.0/15 (benchmarking)")
    else if (a == 100) && (leb 64 b && leb b 127)
    then some (bytes "100.64.0.0/10 (RFC6598 CGNAT)")
    else if a == 224
    then some (bytes "224.0.0.0/4 (multicast)")
    else if leb 240 a
    then some (bytes "240.0.0.0/4 (reserved/broadcast)")
    else none

unfoldable pub is_private_ipv4 : ℕ → Option Text
is_private_ipv4 addr = private_octets (octet addr 0) (octet addr 1)

-- The 16 bytes are read as one number: the masked bytes are quotients of it.
unfoldable pub is_private_ipv6 : ℕ → Option Text
is_private_ipv6 addr =
    let b0 = addr / 2 ^ 120 % 256 in
    let b1 = addr / 2 ^ 112 % 256 in
    if addr == 1
    then some (bytes "::1 (IPv6 loopback)")
    else if addr == 0
    then some (bytes ":: (IPv6 unspecified)")
    else if b0 / 2 == 126
    then some (bytes "fc00::/7 (IPv6 ULA)")
    else if (b0 == 254) && (b1 / 64 == 2)
    then some (bytes "fe80::/10 (IPv6 link-local)")
    else if b0 == 255
    then some (bytes "ff00::/8 (IPv6 multicast)")
    else if addr / 2 ^ 32 == 65535
    then is_private_ipv4 (addr % 2 ^ 32)
    else none

-- An entry of the resolver's list, by its family.
pub data Address : Type 0 where
  inet inet6 : ℕ → Address
  other : Address

unfoldable pub is_private : Address → Option Text
is_private (inet addr) = is_private_ipv4 addr
is_private (inet6 addr) = is_private_ipv6 addr
is_private other = none

-- What getaddrinfo returns: an error code, or the list, empty where it leaves a null pointer.
pub data Resolution : Type 0 where
  failed : ℤ → Resolution
  resolved : List Address → Resolution

-- struct UrlValidation
pub record UrlValidation : Type 0 where
  pub internal : Bool
  pub reason : Text
  pub host : Text
  pub resolved_ip : Text
  pub port : ℤ
  pub resolved_ip_is_v6 : Bool

-- The text after a prefix.
unfoldable pub after_prefix : Text → Text → Option Text
after_prefix [] t = some t
after_prefix (p ∷ ps) [] = none
after_prefix (p ∷ ps) (c ∷ cs) = let rest = after_prefix ps cs in if p == c then rest else none

abbrev pub or_else : Option Text → Option Text → Option Text
or_else (some t) u = some t
or_else none u = u

abbrev pub get_or_self : Option Text → Text → Text
get_or_self none t = t
get_or_self (some u) t = u

-- The text after the first occurrence of a piece.
unfoldable pub after_first : Text → Text → Option Text
after_first piece [] = after_prefix piece []
after_first piece (c ∷ cs) = or_else (after_prefix piece (c ∷ cs)) (after_first piece cs)

-- The text before the first of /, ? and #.
unfoldable pub before_path : Text → Text
before_path [] = []
before_path (c ∷ cs) =
    let rest = before_path cs in if (c == 47) || ((c == 63) || (c == 35)) then [] else c ∷ rest

-- The parts around the first and around the last occurrence of a character.
unfoldable pub split_first : ℕ → Text → Option (Text × Text)
split_first x [] = none
split_first x (c ∷ cs) =
    let rest = split_first x cs in
    if c == x then some ([], cs) else (elim rest [ none ↦ none | some s ↦ some (c ∷ s.0, s.1) ])

unfoldable pub split_last : ℕ → Text → Option (Text × Text)
split_last x [] = none
split_last x (c ∷ cs) =
    let rest = split_last x cs in
    elim rest [ some s ↦ some (c ∷ s.0, s.1) | none ↦ if c == x then some ([], cs) else none ]

-- The port behind a closing bracket.
abbrev pub port_after : Text → Text
port_after [] = []
port_after (c ∷ cs) = if c == 58 then cs else []

-- extractHost behind the cut at the path: the host, and the text of the port.
unfoldable pub split_host : Text → Text × Text
split_host host_port = elim (after_prefix (bytes "[") host_port) [
  | some inner ↦ elim (split_first 93 inner) [ none ↦ ([], []) | some s ↦ (s.0, port_after s.1) ]
  | none ↦ elim (split_last 58 host_port) [ none ↦ (host_port, []) | some s ↦ s ]
]

unfoldable pub extract_host : Text → Text × Text
extract_host url =
    let remainder = get_or_self (after_first (bytes "://") url) url in
    split_host (before_path (get_or_self (after_first (bytes "@") remainder) remainder))

abbrev pub is_some : Option Text → Bool
is_some none = false
is_some (some t) = true

-- v.port; `stoi` is `none` where std::stoi throws.
unfoldable pub port_of : (Text → Option ℤ) → Text → Text → ℤ
port_of stoi url [] =
    if is_some (after_prefix (bytes "https://") url)
    then pos 443
    else if is_some (after_prefix (bytes "http://") url)
    then pos 80
    else pos 0
port_of stoi url (c ∷ cs) = elim (stoi (c ∷ cs)) [ none ↦ pos 0 | some port ↦ port ]

-- The tests of the suffix: its 6 characters, and what stands before them.
unfoldable pub is_mdns : Text → Bool
is_mdns host =
    leb 6 (length host)
    && ((text_beq (drop (length host - 6) host) (bytes ".local")
          || text_beq (drop (length host - 6) host) (bytes ".LOCAL"))
        && ((length host == 6) || text_beq (take 1 (drop (length host - 7) host)) (bytes ".")))

abbrev pub is_localhost : Text → Bool
is_localhost host = text_beq host (bytes "localhost") || text_beq host (bytes "LOCALHOST")

-- What the loop over the resolver's list carries.
pub record Scan : Type 0 where
  pub first_internal : Option Text
  pub resolved_ip : Text
  pub resolved_ip_is_v6 : Bool

abbrev pub is_empty : Text → Bool
is_empty [] = true
is_empty (c ∷ cs) = false

-- The first address is kept; an entry of no internet family is passed over.
abbrev pub keep_ip : (Address → Text) → Address → Scan → Scan
keep_ip ntop (inet addr) s =
    if is_empty s.resolved_ip
    then record s { resolved_ip = ntop (inet addr); resolved_ip_is_v6 = false }
    else s
keep_ip ntop (inet6 addr) s =
    if is_empty s.resolved_ip
    then record s { resolved_ip = ntop (inet6 addr); resolved_ip_is_v6 = true }
    else s
keep_ip ntop other s = s

unfoldable pub scan : (Address → Text) → List Address → Scan → Scan
scan ntop [] s = s
scan ntop (a ∷ addrs) s =
    scan ntop addrs
      (record (keep_ip ntop a s) { first_internal = or_else s.first_internal (is_private a) })

abbrev pub some_text : Text → Option Text
some_text [] = none
some_text (c ∷ cs) = some (c ∷ cs)

-- isInternalUrl behind the resolver. `show` prints the code of an error.
unfoldable pub judge : (Address → Text) → (ℤ → Text) → UrlValidation → Resolution → UrlValidation
judge ntop show v (failed rc) = record v {
  internal = true;
  reason = bytes "DNS resolution failed (fail-closed): rc=" ++ show rc;
}
judge ntop show v (resolved []) = record v {
  internal = true;
  reason = bytes "DNS resolution failed (fail-closed): rc=" ++ show (pos 0);
}
judge ntop show v (resolved (a ∷ addrs)) =
    let s =
      scan ntop (a ∷ addrs)
        (record { first_internal = none; resolved_ip = []; resolved_ip_is_v6 = false }) in
    (record v {
      internal = is_some s.first_internal;
      reason = get_or_self s.first_internal (bytes "public destination");
      resolved_ip = s.resolved_ip;
      resolved_ip_is_v6 = s.resolved_ip_is_v6;
    })

module _ (stoi : Text → Option ℤ) (getaddrinfo : Text → Option Text → Resolution)
    (ntop : Address → Text) (show : ℤ → Text) where
  unfoldable pub is_internal_url : Text → UrlValidation
  is_internal_url url =
      let (host, port_text) = extract_host url in
      let v : UrlValidation = record {
        internal = false;
        reason = [];
        host = host;
        resolved_ip = [];
        port = port_of stoi url port_text;
        resolved_ip_is_v6 = false;
      } in
      if is_empty host
      then (record v {
        internal = true;
        reason = bytes "URL parse failed (missing or malformed host)";
        port = pos 0;
      })
      else if is_mdns host
      then record v { internal = true; reason = bytes "*.local mDNS hostname" }
      else if is_localhost host
      then record v { internal = true; reason = bytes "localhost alias" }
      else judge ntop show v (getaddrinfo host (some_text port_text))

-- `show` prints the port.
unfoldable pub build_resolve_entry : (ℤ → Text) → UrlValidation → Text
build_resolve_entry show v =
    if v.internal || (is_empty v.host || (is_empty v.resolved_ip || int_beq v.port (pos 0)))
    then []
    else v.host ++ bytes ":" ++ show v.port ++ bytes ":" ++ v.resolved_ip

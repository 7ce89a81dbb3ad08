-- ===== src/UrlValidator/Tests.antt =====
-- Runs of url_validator.cpp, and its theorems at concrete URLs.
use vms_ai.Prelude.{◌+◌, ◌*◌, ◌^◌, ◌≡◌, refl, ℤ, false, Option, none, [], ◌∷◌, Text, bytes, arith}
use vms_ai.UrlValidator.{
  Address, inet, Resolution, resolved, is_private, is_private_ipv4, private_octets, octet, is_some,
  is_empty, after_prefix, after_first, before_path, split_first, split_last, split_host,
  extract_host, is_mdns, is_localhost, some_text, scan, judge, is_internal_url,
}
use vms_ai.UrlValidator.Blocks.{blocks, is_private_ipv4-blocks}
use vms_ai.UrlValidator.Gate.{Judged, is_internal_url-Judged}

-- 225.0.0.1 is a multicast address, but not in 224.0.0.0/8.
multicast_passes : is_private_ipv4 (225 * 2 ^ 24 + 1) ≡ none
unfolding is_private_ipv4 private_octets octet
multicast_passes = refl

-- An @ in the query is taken for the end of a user name.
query_host : (extract_host (bytes "http://10.0.0.1/?@example.org")).0 ≡ bytes "example.org"
unfolding extract_host split_host before_path after_first after_prefix split_first split_last
query_host = refl

-- The test wants a second dot.
mdns_name : is_mdns (bytes "printer.local") ≡ false
unfolding is_mdns
mdns_name = refl

is_private_ipv4-blocks_example :
    is_some (is_private_ipv4 (172 * 2 ^ 24 + 20 * 2 ^ 16)) ≡ blocks (172 * 2 ^ 24 + 20 * 2 ^ 16)
is_private_ipv4-blocks_example = is_private_ipv4-blocks (172 * 2 ^ 24 + 20 * 2 ^ 16) (omega arith)

abbrev no_number : Text → Option ℤ
no_number t = none

-- A resolver that knows one address for every host.
abbrev resolver : Text → Option Text → Resolution
resolver host port = resolved (inet (8 * 2 ^ 24 + 8) ∷ [])

abbrev dotted : Address → Text
dotted a = bytes "8.0.0.8"

abbrev shown {ℓ} : {A : Type ℓ} → A → Text
shown n = bytes "80"

abbrev url : Text
url = bytes "http://a.org/x"

url_passes : (is_internal_url no_number resolver dotted shown url).internal ≡ false
unfolding is_internal_url extract_host split_host before_path after_first after_prefix split_first
    split_last is_mdns judge scan is_private is_private_ipv4 private_octets octet
url_passes = refl

is_internal_url-Judged_example :
    (is_empty (extract_host url).0 ≡ false)
    × (is_mdns (extract_host url).0 ≡ false)
    × (is_localhost (extract_host url).0 ≡ false)
    × Judged dotted
        (resolver (extract_host url).0 (some_text (extract_host url).1))
        (is_internal_url no_number resolver dotted shown url).resolved_ip
is_internal_url-Judged_example =
    is_internal_url-Judged no_number resolver dotted shown url url_passes

-- ===== src/StreamHub/Slots.antt =====
-- cpp-backend/src/streaming/camera_stream_manager.cpp: the caps on connections.
use vms_ai.Prelude.{
  ℕ, ◌+◌, ◌-◌, ◌%◌, ltb, leb, ◌==◌, ℤ, pos, pos_part, ltb_ℤ, Bool, true, false, ◌&&◌, Option, none,
  some, if◌then◌else◌, Map, lookup, insert, erase, text_eq, Text,
}

abbrev pub u64_mod : ℕ
u64_mod = 18446744073709551616

-- g_per_ip_count, g_conn_current and g_conn_peak. The counts of the addresses are ints there, which one
-- process would need 2^31 open connections of an address to leave; here they have no bound.
pub record ConnSlots : Type 0 where
  pub per_ip : Map Text ℕ
  pub current : ℕ
  pub peak : ℕ

unfoldable pub count_or_zero : Option ℕ → ℕ
count_or_zero none = 0
count_or_zero (some n) = n

-- The count of an address and the gauge go up, and the peak with them.
unfoldable pub take_slot : Text → ℕ → ConnSlots → ConnSlots
take_slot ip per s = record {
  per_ip = insert ip (per + 1) s.per_ip;
  current = (s.current + 1) % u64_mod;
  peak = if ltb s.peak ((s.current + 1) % u64_mod) then (s.current + 1) % u64_mod else s.peak;
}

-- With the count of the address, which operator[] puts at 0 where there was none.
unfoldable pub reserve_for_ip : ℤ → Text → ℕ → ConnSlots → ConnSlots × Bool
reserve_for_ip max_per_ip ip per s =
    if ltb_ℤ (pos 0) max_per_ip && leb (pos_part max_per_ip) per
    then (
      record s { per_ip = if per == 0 then erase ip s.per_ip else insert ip per s.per_ip },
      false,
    )
    else (take_slot ip per s, true)

unfoldable pub try_reserve_conn_slot : ℤ → ℤ → Text → ConnSlots → ConnSlots × Bool
try_reserve_conn_slot max_global max_per_ip ip s =
    if ltb_ℤ (pos 0) max_global && leb (pos_part max_global) s.current
    then (s, false)
    else reserve_for_ip max_per_ip ip (count_or_zero (lookup ip s.per_ip)) s

-- What a release leaves of the counts.
unfoldable pub released : Text → Map Text ℕ → Option ℕ → Map Text ℕ
released ip m none = m
released ip m (some n) = if leb (n - 1) 0 then erase ip m else insert ip (n - 1) m

unfoldable pub release_conn_slot : Text → ConnSlots → ConnSlots
unfolding released
release_conn_slot ip s = record s {
  per_ip = released ip s.per_ip (lookup ip s.per_ip);
  current = (s.current + (u64_mod - 1)) % u64_mod;
}

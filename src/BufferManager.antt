-- ===== src/BufferManager.antt =====
-- cpp-backend/include/recording/buffer_manager.h and cpp-backend/src/recording/buffer_manager.cpp:
-- the packets that a recording begins with. A long long is an unbounded integer, a size_t wraps
-- around. The flag is_keyframe, which push leaves as it is in memory, is left out.
pub mod Cap
pub mod Span
mod Tests
use vms_ai.Prelude.{
  ℕ, ◌+◌, ◌-◌, ◌%◌, ◌^◌, ℤ, pos, negsuc, ◌-ℤ◌, ltb_ℤ, Bool, true, false, List, [], ◌∷◌, ◌++◌, ltb,
  length, if◌then◌else◌,
}

pub record VideoPacket : Type 0 where
  pub data_bytes : List ℕ
  pub timestamp : ℤ  -- ms

pub record BufferManager : Type 0 where
  pub buffer : List VideoPacket
  pub max_duration_ms : ℕ  -- size_t
  pub total_bytes : ℕ  -- size_t

unfoldable pub new : ℕ → BufferManager
new max_duration_ms = record { buffer = []; max_duration_ms = max_duration_ms; total_bytes = 0 }

-- static_cast<long long>(n) of a size_t
unfoldable pub to_long_long : ℕ → ℤ
to_long_long n = if ltb n (2 ^ 63) then pos n else pos n -ℤ pos (2 ^ 64)

-- total_bytes_ -= size
unfoldable pub minus_size : ℕ → ℕ → ℕ
minus_size total size = (total + (2 ^ 64 - size % 2 ^ 64)) % 2 ^ 64

-- constexpr size_t kSafetyCapBytes
abbrev pub safety_cap_bytes : ℕ
safety_cap_bytes = 52428800

-- Prune by time: the buffer and the total.
unfoldable pub prune_by_time : ℤ → ℤ → List VideoPacket → ℕ → List VideoPacket × ℕ
prune_by_time newest limit [] total = ([], total)
prune_by_time newest limit (p ∷ ps) total =
    if ltb_ℤ limit (newest -ℤ p.timestamp)
    then prune_by_time newest limit ps (minus_size total (length p.data_bytes))
    else (p ∷ ps, total)

-- Prune while the total exceeds the cap.
unfoldable pub prune_by_size : List VideoPacket → ℕ → List VideoPacket × ℕ
prune_by_size [] total = ([], total)
prune_by_size (p ∷ ps) total =
    if ltb safety_cap_bytes total
    then prune_by_size ps (minus_size total (length p.data_bytes))
    else (p ∷ ps, total)

unfoldable pub push : List ℕ → ℤ → BufferManager → BufferManager
push bytes_in timestamp s =
    let packet : VideoPacket = record { data_bytes = bytes_in; timestamp = timestamp } in
    let (ps, total) =
      prune_by_time timestamp (to_long_long s.max_duration_ms) (s.buffer ++ packet ∷ [])
        ((s.total_bytes + length bytes_in) % 2 ^ 64) in
    let (kept, kept_bytes) = prune_by_size ps total in
    (record s { buffer = kept; total_bytes = kept_bytes })

unfoldable pub get_snapshot : BufferManager → List VideoPacket
get_snapshot s = s.buffer

unfoldable pub clear : BufferManager → BufferManager
clear s = record s { buffer = []; total_bytes = 0 }

unfoldable pub set_max_duration : ℕ → BufferManager → BufferManager
set_max_duration ms s = record s { max_duration_ms = ms }

unfoldable pub get_size : BufferManager → ℕ
get_size s = length s.buffer

-- buffer_.back().timestamp, of a buffer that begins with p
unfoldable pub last_time : VideoPacket → List VideoPacket → ℤ
last_time p [] = p.timestamp
last_time p (q ∷ qs) = last_time q qs

-- A long long as a size_t.
unfoldable pub to_size : ℤ → ℕ
to_size (pos n) = n % 2 ^ 64
to_size (negsuc n) = 2 ^ 64 - 1 - n % 2 ^ 64

unfoldable pub duration_of : List VideoPacket → ℕ
duration_of [] = 0
duration_of (p ∷ ps) = to_size (last_time p ps -ℤ p.timestamp)

unfoldable pub get_duration : BufferManager → ℕ
get_duration s = duration_of s.buffer

-- ===== src/BufferManager/Tests.antt =====
-- Runs of buffer_manager.cpp, and its theorems at concrete packets.
use vms_ai.Prelude.{◌≤◌, ◌≡◌, refl, pos, ◌-ℤ◌, List, [], ◌∷◌, ◌++◌, arith}
use vms_ai.BufferManager.{
  VideoPacket, BufferManager, to_long_long, minus_size, prune_by_time, prune_by_size, push,
  get_duration,
}
use vms_ai.BufferManager.Cap.{IsBuffer, packet_of, push-IsBuffer}
use vms_ai.BufferManager.Span.{InOrder, push-get_duration-le}

-- At most 100 ms are kept; two packets are there.
abbrev held : BufferManager
held = record {
  buffer = packet_of (1 ∷ 2 ∷ []) (pos 0) ∷ packet_of (3 ∷ []) (pos 60) ∷ [];
  max_duration_ms = 100;
  total_bytes = 3;
}

abbrev held-IsBuffer : IsBuffer held
held-IsBuffer = (refl, omega arith)

first_is_dropped :
    (push (4 ∷ 5 ∷ []) (pos 130) held).buffer
    ≡ packet_of (3 ∷ []) (pos 60) ∷ packet_of (4 ∷ 5 ∷ []) (pos 130) ∷ []
unfolding push prune_by_time prune_by_size to_long_long minus_size ◌-ℤ◌
first_is_dropped = refl

push-IsBuffer_example :
    IsBuffer (push (4 ∷ 5 ∷ []) (pos 130) held)
    × (dropped : List VideoPacket) × (held.buffer ++ packet_of (4 ∷ 5 ∷ []) (pos 130) ∷ []
        ≡ dropped ++ (push (4 ∷ 5 ∷ []) (pos 130) held).buffer)
push-IsBuffer_example = push-IsBuffer (4 ∷ 5 ∷ []) (pos 130) held held-IsBuffer (omega arith)

held-InOrder : InOrder (held.buffer ++ packet_of (4 ∷ 5 ∷ []) (pos 130) ∷ [])
held-InOrder = ((omega arith, (omega arith, tt)), ((omega arith, tt), (tt, tt)))

push-get_duration-le_example :
    InOrder (push (4 ∷ 5 ∷ []) (pos 130) held).buffer
    × (get_duration (push (4 ∷ 5 ∷ []) (pos 130) held) ≤ 100)
push-get_duration-le_example =
    push-get_duration-le (4 ∷ 5 ∷ []) (pos 130) held held-IsBuffer (omega arith) (omega arith)
      held-InOrder

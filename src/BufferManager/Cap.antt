-- ===== src/BufferManager/Cap.antt =====
-- The bytes that buffer_manager.cpp holds.
use vms_ai.Prelude.{
  ℕ, ◌+◌, ◌%◌, ◌^◌, ◌≤◌, ◌<◌, ◌≡◌, refl, sym, ap, ◌∙◌, ℤ, ◌-ℤ◌, ltb_ℤ, Bool-cases, inl, inr, List,
  [], ◌∷◌, ◌++◌, ltb, length, arith,
}
use mathlib.Core.List.{append_assoc}
use vms_ai.BufferManager.{
  VideoPacket, BufferManager, to_long_long, minus_size, safety_cap_bytes, prune_by_time,
  prune_by_size, push,
}

abbrev pub bytes_of : List VideoPacket → ℕ
bytes_of [] = 0
bytes_of (p ∷ ps) = length p.data_bytes + bytes_of ps

-- The total is the sum of the sizes, and within the cap.
abbrev pub IsBuffer : BufferManager → Type 0
IsBuffer s = (s.total_bytes ≡ bytes_of s.buffer) × (s.total_bytes ≤ safety_cap_bytes)

pub bytes_of-append : (ps qs : List VideoPacket) → bytes_of (ps ++ qs) ≡ bytes_of ps + bytes_of qs
bytes_of-append [] qs = omega arith
bytes_of-append (p ∷ ps) qs = omega (arith, bytes_of-append ps qs)

-- The rest of a list behind what was dropped, and its total.
pub record Rest (ps : List VideoPacket) (r : List VideoPacket × ℕ) : Type 0 where
  pub total : r.1 ≡ bytes_of r.0
  pub dropped : List VideoPacket
  pub split : ps ≡ dropped ++ r.0

minus_front :
    (p : VideoPacket) (ps : List VideoPacket) (total : ℕ)
    → total ≡ bytes_of (p ∷ ps)
    → total < 2 ^ 64
    → minus_size total (length p.data_bytes) ≡ bytes_of ps
unfolding minus_size
minus_front p ps total h b = omega arith

pub prune_by_time-Rest :
    (newest limit : ℤ) (ps : List VideoPacket) (total : ℕ)
    → total ≡ bytes_of ps
    → total < 2 ^ 64
    → Rest ps (prune_by_time newest limit ps total)
unfolding prune_by_time
prune_by_time-Rest newest limit [] total h b = record { total = h; dropped = []; split = refl }
prune_by_time-Rest newest limit (p ∷ ps) total h b =
    elim (Bool-cases (ltb_ℤ limit (newest -ℤ p.timestamp))) [
      | inl old ↦
          let less = minus_front p ps total h b in
          let rest =
            prune_by_time-Rest newest limit ps (minus_size total (length p.data_bytes)) less
              (omega arith) in
          rw (old) (record {
            total = rest.total;
            dropped = p ∷ rest.dropped;
            split = ap (λ qs. p ∷ qs) rest.split;
          })
      | inr young ↦ rw (young) (record { total = h; dropped = []; split = refl })
    ]

pub prune_by_size-Rest :
    (ps : List VideoPacket) (total : ℕ)
    → total ≡ bytes_of ps
    → total < 2 ^ 64
    → Rest ps (prune_by_size ps total) × ((prune_by_size ps total).1 ≤ safety_cap_bytes)
unfolding prune_by_size
prune_by_size-Rest [] total h b = (record { total = h; dropped = []; split = refl }, omega arith)
prune_by_size-Rest (p ∷ ps) total h b = elim (Bool-cases (ltb safety_cap_bytes total)) [
  | inl over ↦
      let less = minus_front p ps total h b in
      let (rest, fits) =
        prune_by_size-Rest ps (minus_size total (length p.data_bytes)) less (omega arith) in
      rw (over) (
        (record {
          total = rest.total;
          dropped = p ∷ rest.dropped;
          split = ap (λ qs. p ∷ qs) rest.split;
        }),
        fits,
      )
  | inr under ↦ rw (under) (record { total = h; dropped = []; split = refl }, ground arith)
]

abbrev pub packet_of : List ℕ → ℤ → VideoPacket
packet_of bytes_in timestamp = record { data_bytes = bytes_in; timestamp = timestamp }

-- push keeps total_bytes_ the sum of the sizes of the packets and at most 50 MB, for a packet below
-- 2^63 bytes, and what it keeps is the end of the buffer with the new packet behind it.
pub push-IsBuffer :
    (bytes_in : List ℕ) (timestamp : ℤ) (s : BufferManager)
    → IsBuffer s
    → length bytes_in < 2 ^ 63
    → IsBuffer (push bytes_in timestamp s)
      × (dropped : List VideoPacket) × (s.buffer ++ packet_of bytes_in timestamp ∷ []
          ≡ dropped ++ (push bytes_in timestamp s).buffer)
unfolding push
push-IsBuffer bytes_in timestamp s h b =
    let grown = s.buffer ++ packet_of bytes_in timestamp ∷ [] in
    let limit = to_long_long s.max_duration_ms in
    let total = (s.total_bytes + length bytes_in) % 2 ^ 64 in
    let sum = bytes_of-append s.buffer (packet_of bytes_in timestamp ∷ []) in
    let young = prune_by_time-Rest timestamp limit grown total (omega arith) (omega arith) in
    let r = prune_by_time timestamp limit grown total in
    let shrunk = ap bytes_of young.split ∙ bytes_of-append young.dropped r.0 in
    let (small, fits) = prune_by_size-Rest r.0 r.1 young.total (omega arith) in
    (
      (small.total, fits),
      young.dropped ++ small.dropped,
      young.split
          ∙ ap (λ qs. young.dropped ++ qs) small.split
          ∙ sym (append_assoc young.dropped small.dropped (prune_by_size r.0 r.1).0),
    )

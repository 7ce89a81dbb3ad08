-- ===== src/Attendance/Keys.antt =====
-- The dedup key of attendance_tracker.h.
use vms_ai.Prelude.{◌^◌, ◌≤◌, ◌<◌, ◌≡◌, ap, ℤ, pos, negsuc, pos_part, neg_part, arith}
use vms_ai.Attendance.{to_uint32, pack_key}

-- The values of an int of 32 bits.
abbrev pub IsInt32 : ℤ → Type 0
IsInt32 a = (pos_part a < 2 ^ 31) × (neg_part a ≤ 2 ^ 31)

to_uint32_bound : (a : ℤ) → to_uint32 a < 2 ^ 32
unfolding to_uint32
to_uint32_bound (pos n) = omega arith
to_uint32_bound (negsuc n) = omega arith

to_uint32_injective : (a b : ℤ) → IsInt32 a → IsInt32 b → to_uint32 a ≡ to_uint32 b → a ≡ b
unfolding to_uint32
to_uint32_injective (pos m) (pos n) i j e = ap pos (omega arith)
to_uint32_injective (pos m) (negsuc n) i j e = absurd (omega arith)
to_uint32_injective (negsuc m) (pos n) i j e = absurd (omega arith)
to_uint32_injective (negsuc m) (negsuc n) i j e = ap negsuc (omega arith)

-- Two pairs of ids in the range of an int that share a dedup key are the same pair.
pub pack_key_injective :
    (person_id camera_id person_id' camera_id' : ℤ)
    → IsInt32 person_id
    → IsInt32 camera_id
    → IsInt32 person_id'
    → IsInt32 camera_id'
    → pack_key person_id camera_id ≡ pack_key person_id' camera_id'
    → (person_id ≡ person_id') × (camera_id ≡ camera_id')
unfolding pack_key
pack_key_injective p c p' c' ip ic ip' ic' e = (
  to_uint32_injective p p' ip ip' (omega (arith, e, to_uint32_bound c, to_uint32_bound c')),
  to_uint32_injective c c' ic ic' (omega (arith, e, to_uint32_bound c, to_uint32_bound c')),
)

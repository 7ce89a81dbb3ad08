-- ===== src/Prelude/Floats.antt =====
-- IEEE floats. A finite float is an integral multiple of 2^-149 and is that integer, so that
-- comparisons are exact; NaN and the infinities are left out. What rounds is a parameter.
use Prim.Native.Nat.{ℕ}
use vms_ai.Prelude.Int.{ℤ, pos}

abbrev pub Float : Type 0
Float = ℤ

abbrev pub zero_float : Float
zero_float = pos 0

-- The operations that round, and the conversion of a count.
pub record FloatOps : Type 0 where
  pub add : Float → Float → Float
  pub sub : Float → Float → Float
  pub mul : Float → Float → Float
  pub div : Float → Float → Float
  pub sqrt : Float → Float
  pub of_nat : ℕ → Float

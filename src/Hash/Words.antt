-- ===== src/Hash/Words.antt =====
-- What the two digests share: 32-bit words and their bytes, highest first.
use Prim.Native.Nat.{bit_or}
use vms_ai.Prelude.{
  ℕ, zero, suc, ◌-◌, ◌*◌, ◌/◌, ◌%◌, ◌^◌, ◌≡◌, refl, List, [], ◌∷◌, ◌++◌, length, length-append,
  arith, Text,
}

abbrev pub u32_mod : ℕ
u32_mod = 4294967296

unfoldable pub not32 : ℕ → ℕ
not32 x = u32_mod - 1 - x

unfoldable pub rotr : ℕ → ℕ → ℕ
rotr x n = bit_or (x / 2 ^ n) (x * 2 ^ (32 - n) % u32_mod)

unfoldable pub left_rotate : ℕ → ℕ → ℕ
left_rotate x n = bit_or (x * 2 ^ n % u32_mod) (x / 2 ^ (32 - n))

-- Four bytes make a word.
unfoldable pub words : Text → List ℕ
words (a ∷ b ∷ c ∷ d ∷ rest) =
    bit_or (a * 16777216 % u32_mod) (bit_or (b * 65536) (bit_or (c * 256) d)) ∷ words rest
words _ = []

-- The last n bytes of a number, highest first.
unfoldable pub low_bytes : ℕ → ℕ → Text
low_bytes zero x = []
low_bytes (suc n) x = low_bytes n (x / 256) ++ x % 256 ∷ []

pub length-low_bytes : (n x : ℕ) → length (low_bytes n x) ≡ n
unfolding low_bytes
length-low_bytes zero x = refl
length-low_bytes (suc n) x =
    omega
      (arith, length-append (low_bytes n (x / 256)) (x % 256 ∷ []), length-low_bytes n (x / 256))

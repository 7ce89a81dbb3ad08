-- ===== src/Totp/Lengths.antt =====
-- The lengths of digests and codes: no read of truncate is out of bounds.
use Prim.Native.Nat.{bit_and, bit_xor}
use vms_ai.Prelude.{
  ℕ, zero, suc, ◌+◌, ◌/◌, ◌%◌, ◌<◌, ◌≤◌, ltb, lt→ltb, ◌≡◌, refl, inl, inr, Bool-cases, Option, some,
  [], ◌∷◌, ◌++◌, length, length-append, get_elem?, arith, Text, ℤ, map,
}
use vms_ai.Prelude.Bits.{bit_and-le}
use vms_ai.Hash.Words.{low_bytes, length-low_bytes}
use vms_ai.Hash.Sha1.{Words5, put_words, digest, block_key, hmac}
use vms_ai.Totp.{byte_at, truncate, decimal, zero_filled, counter, generated_code}

length-put_words : (s : Words5) → length (put_words s) ≡ 20
unfolding put_words
length-put_words s = omega (
  arith,
  length-append (low_bytes 4 s.a)
      (low_bytes 4 s.b ++ (low_bytes 4 s.c ++ (low_bytes 4 s.d ++ low_bytes 4 s.e))),
  length-append (low_bytes 4 s.b) (low_bytes 4 s.c ++ (low_bytes 4 s.d ++ low_bytes 4 s.e)),
  length-append (low_bytes 4 s.c) (low_bytes 4 s.d ++ low_bytes 4 s.e),
  length-append (low_bytes 4 s.d) (low_bytes 4 s.e),
  length-low_bytes 4 s.a,
  length-low_bytes 4 s.b,
  length-low_bytes 4 s.c,
  length-low_bytes 4 s.d,
  length-low_bytes 4 s.e,
)

length-digest : (input : Text) → length (digest input) ≡ 20
unfolding digest
length-digest input = length-put_words _

length-hmac : (key msg : Text) → length (hmac key msg) ≡ 20
unfolding hmac
length-hmac key msg = length-digest (
    map (λ c. bit_xor c 0x5c) (block_key key)
    ++ digest (map (λ c. bit_xor c 0x36) (block_key key) ++ msg))

get_elem?-some : (xs : Text) (i : ℕ) → i < length xs → (x : ℕ) × (get_elem? xs i ≡ some x)
get_elem?-some [] i h = elim h [ ]
get_elem?-some (x ∷ xs) zero h = (x, refl)
get_elem?-some (x ∷ xs) (suc i) h = get_elem?-some xs i (omega arith)

-- A read inside of the digest goes on.
byte_at-some :
    (hash : Text) (i : ℕ) (k : ℕ → Option ℕ)
    → i < length hash
    → ((b : ℕ) → (v : ℕ) × (k b ≡ some v))
    → (v : ℕ) × (byte_at hash i k ≡ some v)
unfolding byte_at
byte_at-some hash i k h after =
    let (b, e) = get_elem?-some hash i h in let (v, f) = after b in (v, rw (e, byte_at) f)

truncate-some : (hash : Text) → length hash ≡ 20 → (v : ℕ) × (truncate hash ≡ some v)
unfolding truncate
truncate-some hash size = byte_at-some hash 19 _ (omega arith) λ last.
    let mask = bit_and-le last 0x0f in
    byte_at-some hash (bit_and last 0x0f) _ (omega arith) λ a.
      byte_at-some hash (bit_and last 0x0f + 1) _ (omega arith) λ b.
        byte_at-some hash (bit_and last 0x0f + 2) _ (omega arith)
          λ c. byte_at-some hash (bit_and last 0x0f + 3) _ (omega arith) λ d. (_, refl)

-- n without its last k digits.
abbrev tenths : ℕ → ℕ → ℕ
tenths zero n = n
tenths (suc k) n = tenths k (n / 10)

length-decimal-le : (fuel k n : ℕ) → tenths k (n / 10) ≡ 0 → length (decimal fuel n) ≤ suc k
unfolding decimal
length-decimal-le zero k n h = omega arith
length-decimal-le (suc fuel) zero n h = rw (lt→ltb n 10 (omega arith)) (omega arith)
length-decimal-le (suc fuel) (suc k) n h = elim (Bool-cases (ltb n 10)) [
  | inl b ↦ rw b (omega arith)
  | inr b ↦ rw b (
      omega (
        arith,
        length-append (decimal fuel (n / 10)) ((48 + n % 10) ∷ []),
        length-decimal-le fuel k (n / 10) h,
      ))
]

length-zero_filled :
    (fuel : ℕ) (code : Text)
    → length code ≤ 6
    → 6 ≤ length code + fuel
    → length (zero_filled fuel code) ≡ 6
unfolding zero_filled
length-zero_filled zero code h k = omega arith
length-zero_filled (suc fuel) code h k = elim (Bool-cases (ltb (length code) 6)) [
  | inl b ↦ rw b (length-zero_filled fuel (48 ∷ code) (ground arith) (omega arith))
  | inr b ↦ rw b (ground arith)
]

-- Every step has a code of six digits: the reads of truncate are inside of the digest.
pub generated_code-some :
    (key : Text) (seconds : ℕ) (i : ℤ)
    → (code : Text) × (generated_code key seconds i ≡ some code) × (length code ≡ 6)
unfolding generated_code
generated_code-some key seconds i =
    let message = low_bytes 8 (counter seconds i) in
    let (val, e) = truncate-some (hmac key message) (length-hmac key message) in
    let short : length (decimal 10 (val % 1000000)) ≤ 6 =
      length-decimal-le 10 5 (val % 1000000) (omega arith) in
    (
      zero_filled 6 (decimal 10 (val % 1000000)),
      rw (e, generated_code) refl,
      length-zero_filled 6 (decimal 10 (val % 1000000)) short (omega arith),
    )

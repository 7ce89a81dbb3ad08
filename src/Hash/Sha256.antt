-- ===== src/Hash/Sha256.antt =====
-- cpp-backend/include/utils/sha256.h.
use Prim.Native.Nat.{bit_and, bit_xor}
use vms_ai.Prelude.{
  ℕ, zero, suc, ◌+◌, ◌-◌, ◌*◌, ◌/◌, ◌%◌, ◌==◌, List, [], ◌∷◌, ◌++◌, length, take, drop, replicate,
  get_or, if◌then◌else◌, ltb, Text,
}
use vms_ai.Hash.Words.{u32_mod, not32, rotr, words, low_bytes}

abbrev pub initial_words : List ℕ
initial_words =
    0x6a09e667 ∷ 0xbb67ae85 ∷ 0x3c6ef372 ∷ 0xa54ff53a ∷ 0x510e527f ∷ 0x9b05688c ∷ 0x1f83d9ab
    ∷ 0x5be0cd19 ∷ []

abbrev pub round_constants : List ℕ
round_constants =
    0x428a2f98 ∷ 0x71374491 ∷ 0xb5c0fbcf ∷ 0xe9b5dba5 ∷ 0x3956c25b ∷ 0x59f111f1 ∷ 0x923f82a4
    ∷ 0xab1c5ed5 ∷ 0xd807aa98 ∷ 0x12835b01 ∷ 0x243185be ∷ 0x550c7dc3 ∷ 0x72be5d74 ∷ 0x80deb1fe
    ∷ 0x9bdc06a7 ∷ 0xc19bf174 ∷ 0xe49b69c1 ∷ 0xefbe4786 ∷ 0x0fc19dc6 ∷ 0x240ca1cc ∷ 0x2de92c6f
    ∷ 0x4a7484aa ∷ 0x5cb0a9dc ∷ 0x76f988da ∷ 0x983e5152 ∷ 0xa831c66d ∷ 0xb00327c8 ∷ 0xbf597fc7
    ∷ 0xc6e00bf3 ∷ 0xd5a79147 ∷ 0x06ca6351 ∷ 0x14292967 ∷ 0x27b70a85 ∷ 0x2e1b2138 ∷ 0x4d2c6dfc
    ∷ 0x53380d13 ∷ 0x650a7354 ∷ 0x766a0abb ∷ 0x81c2c92e ∷ 0x92722c85 ∷ 0xa2bfe8a1 ∷ 0xa81a664b
    ∷ 0xc24b8b70 ∷ 0xc76c51a3 ∷ 0xd192e819 ∷ 0xd6990624 ∷ 0xf40e3585 ∷ 0x106aa070 ∷ 0x19a4c116
    ∷ 0x1e376c08 ∷ 0x2748774c ∷ 0x34b0bcb5 ∷ 0x391c0cb3 ∷ 0x4ed8aa4a ∷ 0x5b9cca4f ∷ 0x682e6ff3
    ∷ 0x748f82ee ∷ 0x78a5636f ∷ 0x84c87814 ∷ 0x8cc70208 ∷ 0x90befffa ∷ 0xa4506ceb ∷ 0xbef9a3f7
    ∷ 0xc67178f2 ∷ []

-- while (new_len % 64 != 56) new_len++
unfoldable pub grow : ℕ → ℕ → ℕ
grow zero new_len = new_len
grow (suc fuel) new_len =
    let longer = grow fuel (new_len + 1) in if new_len % 64 == 56 then new_len else longer

-- The message with the bit 1, the zeros and its length in bits, on 64 bits.
unfoldable pub padded : Text → Text
unfolding grow low_bytes
padded input =
    let new_len = grow 64 (length input + 1) in
    input
    ++ (128
        ∷ (replicate (new_len - (length input + 1)) 0
            ++ low_bytes 8 (length input * 8 % 18446744073709551616)))

unfoldable pub small_sigma : ℕ → ℕ → ℕ → ℕ → ℕ
unfolding rotr
small_sigma p q r x = bit_xor (bit_xor (rotr x p) (rotr x q)) (x / r)

-- w[16] to w[63], one for each round left.
unfoldable pub extend : ℕ → List ℕ → List ℕ
unfolding small_sigma
extend zero w = w
extend (suc n) w =
    let i = length w in
    let s0 = small_sigma 7 18 8 (get_or w (i - 15) 0) in
    let s1 = small_sigma 17 19 1024 (get_or w (i - 2) 0) in
    extend n (w ++ (get_or w (i - 16) 0 + s0 + get_or w (i - 7) 0 + s1) % u32_mod ∷ [])

-- a to h, or h[0] to h[7].
pub record Words8 : Type 0 where
  pub a : ℕ
  pub b : ℕ
  pub c : ℕ
  pub d : ℕ
  pub e : ℕ
  pub f : ℕ
  pub g : ℕ
  pub h : ℕ

unfoldable pub big_sigma : ℕ → ℕ → ℕ → ℕ → ℕ
unfolding rotr
big_sigma p q r x = bit_xor (bit_xor (rotr x p) (rotr x q)) (rotr x r)

unfoldable pub compress_step : ℕ → ℕ → Words8 → Words8
unfolding big_sigma not32
compress_step k w s =
    let ch = bit_xor (bit_and s.e s.f) (bit_and (not32 s.e) s.g) in
    let temp1 = (s.h + big_sigma 6 11 25 s.e + ch + k + w) % u32_mod in
    let maj = bit_xor (bit_xor (bit_and s.a s.b) (bit_and s.a s.c)) (bit_and s.b s.c) in
    let temp2 = (big_sigma 2 13 22 s.a + maj) % u32_mod in
    record {
      a = (temp1 + temp2) % u32_mod;
      b = s.a;
      c = s.b;
      d = s.c;
      e = (s.d + temp1) % u32_mod;
      f = s.e;
      g = s.f;
      h = s.g;
    }

unfoldable pub compress : List ℕ → List ℕ → Words8 → Words8
unfolding compress_step
compress (k ∷ ks) (w ∷ ws) s = compress ks ws (compress_step k w s)
compress _ _ s = s

unfoldable pub add_words : Words8 → Words8 → Words8
add_words s t = record {
  a = (s.a + t.a) % u32_mod;
  b = (s.b + t.b) % u32_mod;
  c = (s.c + t.c) % u32_mod;
  d = (s.d + t.d) % u32_mod;
  e = (s.e + t.e) % u32_mod;
  f = (s.f + t.f) % u32_mod;
  g = (s.g + t.g) % u32_mod;
  h = (s.h + t.h) % u32_mod;
}

unfoldable pub chunk : Text → Words8 → Words8
unfolding words extend compress add_words
chunk block s = add_words s (compress round_constants (extend 48 (words block)) s)

-- One round for each 64 bytes of the message.
unfoldable pub chunks : ℕ → Text → Words8 → Words8
unfolding chunk
chunks zero msg s = s
chunks (suc n) msg s = chunks n (drop 64 msg) (chunk (take 64 msg) s)

unfoldable pub first_words : Words8
first_words = record {
  a = get_or initial_words 0 0;
  b = get_or initial_words 1 0;
  c = get_or initial_words 2 0;
  d = get_or initial_words 3 0;
  e = get_or initial_words 4 0;
  f = get_or initial_words 5 0;
  g = get_or initial_words 6 0;
  h = get_or initial_words 7 0;
}

-- std::hex with std::setfill('0') and a width.
unfoldable pub hex_places : ℕ → ℕ → Text
hex_places zero x = []
hex_places (suc n) x =
    hex_places n (x / 16) ++ (if ltb (x % 16) 10 then 48 + x % 16 else 87 + x % 16) ∷ []

unfoldable pub hash : Text → Text
unfolding padded chunks first_words hex_places
hash input =
    let msg = padded input in
    let s = chunks (length msg / 64) msg first_words in
    hex_places 8 s.a
    ++ (hex_places 8 s.b
        ++ (hex_places 8 s.c
            ++ (hex_places 8 s.d
                ++ (hex_places 8 s.e
                    ++ (hex_places 8 s.f ++ (hex_places 8 s.g ++ hex_places 8 s.h))))))

-- ===== src/Hash/Sha1.antt =====
-- cpp-backend/include/utils/sha1.h.
use Prim.Native.Nat.{bit_and, bit_or, bit_xor}
use vms_ai.Prelude.{
  ℕ, zero, suc, ◌+◌, ◌-◌, ◌*◌, ◌/◌, ◌%◌, ◌==◌, List, [], ◌∷◌, ◌++◌, length, take, drop, replicate,
  get_or, if◌then◌else◌, ltb, Text, map,
}
use vms_ai.Hash.Words.{u32_mod, not32, left_rotate, words, low_bytes}

-- h0 to h4, or a to e.
pub record Words5 : Type 0 where
  pub a : ℕ
  pub b : ℕ
  pub c : ℕ
  pub d : ℕ
  pub e : ℕ

unfoldable pub first_words : Words5
first_words = record {
  a = 0x67452301;
  b = 0xefcdab89;
  c = 0x98badcfe;
  d = 0x10325476;
  e = 0xc3d2e1f0;
}

-- while ((msg.size() * 8) % 512 != 448) msg.push_back(0)
unfoldable pub push_zeros : ℕ → Text → Text
push_zeros zero msg = msg
push_zeros (suc fuel) msg =
    let longer = push_zeros fuel (msg ++ 0 ∷ []) in
    if length msg * 8 % 512 == 448 then msg else longer

unfoldable pub padded : Text → Text
unfolding push_zeros low_bytes
padded input =
    push_zeros 64 (input ++ 128 ∷ []) ++ low_bytes 8 (length input * 8 % 18446744073709551616)

-- w[16] to w[79], one for each round left.
unfoldable pub extend : ℕ → List ℕ → List ℕ
unfolding left_rotate
extend zero w = w
extend (suc n) w =
    let j = length w in
    let mixed =
      bit_xor (bit_xor (bit_xor (get_or w (j - 3) 0) (get_or w (j - 8) 0)) (get_or w (j - 14) 0))
        (get_or w (j - 16) 0) in
    extend n (w ++ left_rotate mixed 1 ∷ [])

-- f and k of a round.
unfoldable pub choose : ℕ → Words5 → ℕ × ℕ
unfolding not32
choose j s =
    if ltb j 20
    then (bit_or (bit_and s.b s.c) (bit_and (not32 s.b) s.d), 0x5a827999)
    else if ltb j 40
    then (bit_xor (bit_xor s.b s.c) s.d, 0x6ed9eba1)
    else if ltb j 60
    then (bit_or (bit_or (bit_and s.b s.c) (bit_and s.b s.d)) (bit_and s.c s.d), 0x8f1bbcdc)
    else (bit_xor (bit_xor s.b s.c) s.d, 0xca62c1d6)

unfoldable pub round_step : ℕ → ℕ → Words5 → Words5
unfolding choose left_rotate
round_step j w s =
    let (f, k) = choose j s in
    record {
      a = (left_rotate s.a 5 + f + s.e + k + w) % u32_mod;
      b = s.a;
      c = left_rotate s.b 30;
      d = s.c;
      e = s.d;
    }

unfoldable pub rounds : ℕ → List ℕ → Words5 → Words5
unfolding round_step
rounds j [] s = s
rounds j (w ∷ ws) s = rounds (j + 1) ws (round_step j w s)

unfoldable pub add_words : Words5 → Words5 → Words5
add_words s t = record {
  a = (s.a + t.a) % u32_mod;
  b = (s.b + t.b) % u32_mod;
  c = (s.c + t.c) % u32_mod;
  d = (s.d + t.d) % u32_mod;
  e = (s.e + t.e) % u32_mod;
}

unfoldable pub chunk : Text → Words5 → Words5
unfolding words extend rounds add_words
chunk block s = add_words s (rounds 0 (extend 64 (words block)) s)

-- One round for each 64 bytes of the message.
unfoldable pub chunks : ℕ → Text → Words5 → Words5
unfolding chunk
chunks zero msg s = s
chunks (suc n) msg s = chunks n (drop 64 msg) (chunk (take 64 msg) s)

-- The five words as bytes.
unfoldable pub put_words : Words5 → Text
unfolding low_bytes
put_words s =
    low_bytes 4 s.a
    ++ (low_bytes 4 s.b ++ (low_bytes 4 s.c ++ (low_bytes 4 s.d ++ low_bytes 4 s.e)))

unfoldable pub digest : Text → Text
unfolding padded chunks first_words
digest input = let msg = padded input in put_words (chunks (length msg / 64) msg first_words)

-- The key on 64 bytes: digested where it is longer, then filled up with zeros.
unfoldable pub block_key : Text → Text
unfolding digest
block_key key_in =
    let key = if ltb 64 (length key_in) then digest key_in else key_in in
    key ++ replicate (64 - length key) 0

unfoldable pub hmac : Text → Text → Text
unfolding digest block_key
hmac key_in msg =
    let key = block_key key_in in
    digest (map (λ c. bit_xor c 0x5c) key ++ digest (map (λ c. bit_xor c 0x36) key ++ msg))

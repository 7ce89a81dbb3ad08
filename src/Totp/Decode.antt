-- ===== src/Totp/Decode.antt =====
-- The base-32 reader against its description by bits.
use Prim.Native.Nat.{bit_or}
use mathlib.Core.List.{append_assoc}
use vms_ai.Prelude.{
  ℕ, zero, suc, ◌+◌, ◌-◌, ◌*◌, ◌/◌, ◌%◌, ◌^◌, ◌<◌, ◌≤◌, leb, ◌≡◌, refl, sym, ap, ◌∙◌, inl, inr,
  Bool-cases, List, [], ◌∷◌, ◌++◌, arith, Text,
}
use vms_ai.Prelude.Bits.{bit_or-five}
use vms_ai.Hash.Words.{u32_mod}
use vms_ai.Totp.{
  Symbol, value, padding, ignored, symbol_of, decode_symbol, decode_loop, base32_decode,
}

abbrev add_symbol : Symbol → List ℕ → List ℕ
add_symbol padding vs = []
add_symbol ignored vs = vs
add_symbol (value v) vs = v ∷ vs

-- The values of the characters before the first '=', the other characters left out.
abbrev pub symbols : Text → List ℕ
symbols [] = []
symbols (c ∷ input) = add_symbol (symbol_of c) (symbols input)

abbrev pub low_bits : ℕ → ℕ → List ℕ
low_bits zero x = []
low_bits (suc n) x = low_bits n (x / 2) ++ x % 2 ∷ []

-- Five bits for each value, highest first.
abbrev pub bits_of : List ℕ → List ℕ
bits_of [] = []
bits_of (v ∷ vs) = low_bits 5 v ++ bits_of vs

-- Eight bits make a byte; what is left of a byte at the end is dropped.
abbrev pub octets : List ℕ → Text
octets (b7 ∷ b6 ∷ b5 ∷ b4 ∷ b3 ∷ b2 ∷ b1 ∷ b0 ∷ rest) =
    (b7 * 128 + b6 * 64 + b5 * 32 + b4 * 16 + b3 * 8 + b2 * 4 + b1 * 2 + b0) ∷ octets rest
octets _ = []

byte_sum :
    (y : ℕ)
    → y / 2 / 2 / 2 / 2 / 2 / 2 / 2 % 2 * 128
        + y / 2 / 2 / 2 / 2 / 2 / 2 % 2 * 64
        + y / 2 / 2 / 2 / 2 / 2 % 2 * 32
        + y / 2 / 2 / 2 / 2 % 2 * 16
        + y / 2 / 2 / 2 % 2 * 8
        + y / 2 / 2 % 2 * 4
        + y / 2 % 2 * 2
        + y % 2
      ≡ y % 256
byte_sum y = omega arith

-- The byte that the loop puts out is made of the eight highest bits.
octets_byte :
    (k x : ℕ) (rest : List ℕ)
    → k < 5
    → octets (low_bits (8 + k) x ++ rest) ≡ x / 2 ^ k % 256 ∷ octets (low_bits k x ++ rest)
octets_byte zero x rest h = ap (λ b. b ∷ octets rest) (byte_sum x ∙ omega arith)
octets_byte (suc zero) x rest h = ap (λ b. b ∷ octets (low_bits 1 x ++ rest)) (byte_sum (x / 2))
octets_byte (suc (suc zero)) x rest h =
    ap (λ b. b ∷ octets (low_bits 2 x ++ rest)) (byte_sum (x / 2 / 2) ∙ omega arith)
octets_byte (suc (suc (suc zero))) x rest h =
    ap (λ b. b ∷ octets (low_bits 3 x ++ rest)) (byte_sum (x / 2 / 2 / 2) ∙ omega arith)
octets_byte (suc (suc (suc (suc zero)))) x rest h =
    ap (λ b. b ∷ octets (low_bits 4 x ++ rest)) (byte_sum (x / 2 / 2 / 2 / 2) ∙ omega arith)
octets_byte (suc (suc (suc (suc (suc k))))) x rest h = absurd (omega arith)

-- k * 2 ^ n
abbrev shifted : ℕ → ℕ → ℕ
shifted zero k = k
shifted (suc n) k = 2 * shifted n k

-- What the loop loses of a full buffer, it does not need.
low_bits-shifted : (n m x k : ℕ) → n ≤ m → low_bits n (x + shifted m k) ≡ low_bits n x
low_bits-shifted zero m x k h = refl
low_bits-shifted (suc n) zero x k h = absurd (omega arith)
low_bits-shifted (suc n) (suc m) x k h =
    let half : (x + 2 * shifted m k) / 2 ≡ x / 2 + shifted m k = omega arith in
    let low : (x + 2 * shifted m k) % 2 ≡ x % 2 = omega arith in
    rw (half, low, low_bits-shifted n m (x / 2) k (omega arith)) refl

low_bits-mod : (n x : ℕ) → n < 8 → low_bits n (x % 134217728) ≡ low_bits n x
low_bits-mod n x h =
    let e : x ≡ x % 134217728 + shifted 27 (x / 134217728) = omega arith in
    sym (low_bits-shifted n 27 (x % 134217728) (x / 134217728) (omega arith))
    ∙ ap (low_bits n) (sym e)

-- The buffer with one value more.
abbrev next_buffer : ℕ → ℕ → ℕ
next_buffer buffer v = bit_or (buffer * 32 % u32_mod) v

next_buffer_lem : (buffer v : ℕ) → v < 32 → next_buffer buffer v ≡ buffer % 134217728 * 32 + v
next_buffer_lem buffer v h =
    let e : buffer * 32 % u32_mod ≡ buffer % 134217728 * 32 = omega arith in
    rw e (bit_or-five (buffer % 134217728) v h)

regroup :
    (l : List ℕ) (a b c d e : ℕ)
    → ((((l ++ a ∷ []) ++ b ∷ []) ++ c ∷ []) ++ d ∷ []) ++ e ∷ [] ≡ l ++ (a ∷ b ∷ c ∷ d ∷ e ∷ [])
regroup l a b c d e = simp append_assoc

five_more :
    (n y q v : ℕ)
    → y ≡ q * 32 + v
    → v < 32
    → low_bits (suc (suc (suc (suc (suc n))))) y ≡ low_bits n q ++ low_bits 5 v
five_more n y q v e h =
    regroup (low_bits n (y / 2 / 2 / 2 / 2 / 2)) (y / 2 / 2 / 2 / 2 % 2) (y / 2 / 2 / 2 % 2)
      (y / 2 / 2 % 2) (y / 2 % 2) (y % 2)
    ∙ (λ i. low_bits n (high i) ++ (b4 i ∷ b3 i ∷ b2 i ∷ b1 i ∷ b0 i ∷ []))
  where
    high : y / 2 / 2 / 2 / 2 / 2 ≡ q
    high = omega arith

    b4 : y / 2 / 2 / 2 / 2 % 2 ≡ v / 2 / 2 / 2 / 2 % 2
    b4 = omega arith

    b3 : y / 2 / 2 / 2 % 2 ≡ v / 2 / 2 / 2 % 2
    b3 = omega arith

    b2 : y / 2 / 2 % 2 ≡ v / 2 / 2 % 2
    b2 = omega arith

    b1 : y / 2 % 2 ≡ v / 2 % 2
    b1 = omega arith

    b0 : y % 2 ≡ v % 2
    b0 = omega arith

low_bits-next :
    (n buffer v : ℕ)
    → n < 8
    → v < 32
    → low_bits (n + 5) (next_buffer buffer v) ≡ low_bits n buffer ++ low_bits 5 v
low_bits-next n buffer v h k =
    let five : n + 5 ≡ suc (suc (suc (suc (suc n)))) = omega arith in
    ap (λ m. low_bits m (next_buffer buffer v)) five
    ∙ five_more n (next_buffer buffer v) (buffer % 134217728) v (next_buffer_lem buffer v k) k
    ∙ ap (λ l. l ++ low_bits 5 v) (low_bits-mod n buffer h)

symbol_small : (c v : ℕ) → symbol_of c ≡ value v → v < 32
unfolding symbol_of
symbol_small c v h = ground arith

no_bits : (n x : ℕ) → n < 8 → octets (low_bits n x ++ []) ≡ []
no_bits zero x h = refl
no_bits (suc zero) x h = refl
no_bits (suc (suc zero)) x h = refl
no_bits (suc (suc (suc zero))) x h = refl
no_bits (suc (suc (suc (suc zero)))) x h = refl
no_bits (suc (suc (suc (suc (suc zero))))) x h = refl
no_bits (suc (suc (suc (suc (suc (suc zero)))))) x h = refl
no_bits (suc (suc (suc (suc (suc (suc (suc zero))))))) x h = refl
no_bits (suc (suc (suc (suc (suc (suc (suc (suc n)))))))) x h = absurd (omega arith)

-- One round, where the rounds after it are right.
symbol-octets :
    (s : Symbol) (buffer n : ℕ) (vs : List ℕ) (rest : ℕ → ℕ → Text)
    → n < 8
    → ((v : ℕ) → s ≡ value v → v < 32)
    → ((b m : ℕ) → m < 8 → rest b m ≡ octets (low_bits m b ++ bits_of vs))
    → octets (low_bits n buffer ++ []) ≡ []
    → decode_symbol s buffer n rest ≡ octets (low_bits n buffer ++ bits_of (add_symbol s vs))
unfolding decode_symbol
symbol-octets padding buffer n vs rest h small after none = sym none
symbol-octets ignored buffer n vs rest h small after none = after buffer n h
symbol-octets (value v) buffer n vs rest h small after none = elim (Bool-cases (leb 8 (n + 5))) [
  | inl b ↦ rw b (
      ap (λ r. next / 2 ^ (n + 5 - 8) % 256 ∷ r) (after next (n + 5 - 8) (ground arith))
      ∙ sym (octets_byte (n + 5 - 8) next (bits_of vs) (ground arith))
      ∙ ap (λ (k : ℕ). octets (low_bits k next ++ bits_of vs))
          (let whole : 8 + (n + 5 - 8) ≡ n + 5 = ground arith in whole)
      ∙ ap octets grown)
  | inr b ↦ rw b (after next (n + 5) (ground arith) ∙ ap octets grown)
]
  where
    next : ℕ
    next = next_buffer buffer v

    grown : low_bits (n + 5) next ++ bits_of vs ≡ low_bits n buffer ++ (low_bits 5 v ++ bits_of vs)
    grown =
        ap (λ l. l ++ bits_of vs) (low_bits-next n buffer v h (small v refl))
        ∙ append_assoc (low_bits n buffer) (low_bits 5 v) (bits_of vs)

-- The loop with n bits in hand.
loop-octets :
    (buffer n : ℕ) (input : Text)
    → n < 8
    → decode_loop buffer n input ≡ octets (low_bits n buffer ++ bits_of (symbols input))
unfolding decode_loop
loop-octets buffer n [] h = sym (no_bits n buffer h)
loop-octets buffer n (c ∷ input) h =
    symbol-octets (symbol_of c) buffer n (symbols input) (λ b m. decode_loop b m input) h
      (symbol_small c) (λ b m k. loop-octets b m input k) (no_bits n buffer h)

-- base32Decode gives the bytes of RFC 4648: five bits, highest first, for each letter of either case
-- and each digit from 2 to 7 before the first '=', with the characters outside of the alphabet passed
-- over, cut into groups of eight, the rest of the last group dropped; the 32-bit buffer that wraps
-- around on a long secret loses none of them.
pub base32_decode-octets : (input : Text) → base32_decode input ≡ octets (bits_of (symbols input))
unfolding base32_decode
base32_decode-octets input = loop-octets 0 0 input (omega arith)

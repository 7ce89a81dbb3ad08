-- ===== src/Totp.antt =====
-- cpp-backend/include/utils/totp.h and cpp-backend/src/utils/totp.cpp: the one-time codes of the
-- second factor, over the HMAC of Hash/Sha1.antt. A draw of std::uniform_int_distribution is an
-- argument; the clock is in seconds since the epoch, and is not before it.
pub mod Decode
pub mod Lengths
pub mod Codes
mod Tests
use Prim.Native.Nat.{bit_and, bit_or}
use vms_ai.Prelude.{
  ℕ, zero, suc, ◌+◌, ◌-◌, ◌*◌, ◌/◌, ◌%◌, ◌^◌, ◌==◌, ltb, leb, ℤ, pos, negsuc, pos_part, neg_part,
  ◌+ℤ◌, leb_ℤ, Bool, true, false, not, ◌&&◌, ◌||◌, Option, none, some, List, [], ◌∷◌, ◌++◌, length,
  get_elem?, get_or, if◌then◌else◌, Text, bytes, text_beq, map,
}
use vms_ai.Hash.Words.{u32_mod, low_bytes}
use vms_ai.Hash.Sha1.{hmac}

abbrev pub base32_chars : Text
base32_chars = bytes "ABCDEFGHIJKLMNOPQRSTUVWXYZ234567"

-- The characters from the i-th on; `draw` gives the i-th number from 0 to 31.
unfoldable pub secret_chars : (ℕ → ℕ) → ℕ → ℕ → Text
secret_chars draw zero i = []
secret_chars draw (suc left) i = get_or base32_chars (draw i) 0 ∷ secret_chars draw left (i + 1)

unfoldable pub generate_secret : (ℕ → ℕ) → Text
unfolding secret_chars
generate_secret draw = secret_chars draw 16 0

-- What a character of a secret stands for.
pub data Symbol : Type 0 where
  value : ℕ → Symbol
  padding : Symbol
  ignored : Symbol

unfoldable pub symbol_of : ℕ → Symbol
symbol_of c =
    if leb 65 c && leb c 90
    then value (c - 65)
    else if leb 97 c && leb c 122
    then value (c - 97)
    else if leb 50 c && leb c 55
    then value (c - 50 + 26)
    else if c == 61
    then padding
    else ignored

-- One round of the loop, with the bits that are not yet a byte; `rest` is the rounds after it.
unfoldable pub decode_symbol : Symbol → ℕ → ℕ → (ℕ → ℕ → Text) → Text
decode_symbol padding buffer bits_left rest = []
decode_symbol ignored buffer bits_left rest = rest buffer bits_left
decode_symbol (value v) buffer bits_left rest =
    let next = bit_or (buffer * 32 % u32_mod) v in
    let bits = bits_left + 5 in
    if leb 8 bits then next / 2 ^ (bits - 8) % 256 ∷ rest next (bits - 8) else rest next bits

unfoldable pub decode_loop : ℕ → ℕ → Text → Text
decode_loop buffer bits_left [] = []
decode_loop buffer bits_left (c ∷ input) =
    decode_symbol (symbol_of c) buffer bits_left (λ b n. decode_loop b n input)

unfoldable pub base32_decode : Text → Text
unfolding decode_loop decode_symbol symbol_of
base32_decode input = decode_loop 0 0 input

-- The reads of truncate, none where one is outside of the digest.
unfoldable pub byte_at : Text → ℕ → (ℕ → Option ℕ) → Option ℕ
byte_at hash i k = elim (get_elem? hash i) [ none ↦ none | some b ↦ k b ]

unfoldable pub truncate : Text → Option ℕ
unfolding byte_at
truncate hash = byte_at hash 19 λ last.
    let offset = bit_and last 0x0f in
    byte_at hash offset λ a. byte_at hash (offset + 1) λ b. byte_at hash (offset + 2) λ c.
      byte_at hash (offset + 3)
        λ d. some (bit_or (bit_or (bit_or (bit_and a 0x7f * 16777216) (b * 65536)) (c * 256)) d)

-- std::to_string; 10 digits are enough for 32 bits.
unfoldable pub decimal : ℕ → ℕ → Text
decimal zero n = []
decimal (suc fuel) n =
    let high = decimal fuel (n / 10) in
    if ltb n 10 then (48 + n) ∷ [] else high ++ (48 + n % 10) ∷ []

-- while (generated_code.size() < 6) generated_code = "0" + generated_code
unfoldable pub zero_filled : ℕ → Text → Text
zero_filled zero code = code
zero_filled (suc fuel) code =
    let longer = zero_filled fuel (48 ∷ code) in if ltb (length code) 6 then longer else code

-- t as a 64-bit number in two's complement.
unfoldable pub counter : ℕ → ℤ → ℕ
counter seconds i =
    (seconds / 30 + 18446744073709551616 + pos_part i - neg_part i) % 18446744073709551616

-- The code for the step i away from now.
unfoldable pub generated_code : Text → ℕ → ℤ → Option Text
unfolding hmac truncate low_bytes counter decimal zero_filled
generated_code key seconds i = elim (truncate (hmac key (low_bytes 8 (counter seconds i)))) [
  | none ↦ none
  | some val ↦ some (zero_filled 6 (decimal 10 (val % 1000000)))
]

-- What one round compares.
unfoldable pub matches_at : Text → Text → ℕ → ℤ → Bool
unfolding generated_code
matches_at key code seconds i = elim (generated_code key seconds i) [
  | none ↦ false
  | some generated ↦ text_beq generated code
]

-- The rounds from i on.
unfoldable pub try_steps : Text → Text → ℕ → ℕ → ℤ → Bool
unfolding matches_at
try_steps key code seconds zero i = false
try_steps key code seconds (suc rounds) i =
    let rest = try_steps key code seconds rounds (i +ℤ pos 1) in
    if matches_at key code seconds i then true else rest

-- From -window to window.
unfoldable pub rounds_of : ℤ → ℕ
rounds_of (pos w) = w + w + 1
rounds_of (negsuc w) = 0

unfoldable pub opposite_step : ℤ → ℤ
opposite_step w = if leb_ℤ w (pos 0) then pos (neg_part w) else negsuc (pos_part w - 1)

unfoldable pub verify_code : Text → Text → ℤ → ℕ → Bool
verify_code secret code window seconds =
    if not (length code == 6) || length secret == 0
    then false
    else let key = base32_decode secret in
      if length key == 0
      then false
      else try_steps key code seconds (rounds_of window) (opposite_step window)

unfoldable pub get_provisioning_uri : Text → Text → Text → Text
get_provisioning_uri username secret issuer =
    bytes "otpauth://totp/"
    ++ (issuer
        ++ (bytes ":"
            ++ (username ++ (bytes "?secret=" ++ (secret ++ (bytes "&issuer=" ++ issuer))))))

-- ===== src/Hash/Padding.antt =====
-- What the two digests hash: the padded message.
use mathlib.Core.List.{append-nil, append_assoc}
use vms_ai.Prelude.{
  ℕ, zero, suc, ◌+◌, ◌-◌, ◌*◌, ◌/◌, ◌%◌, ◌<◌, ◌==◌, ◌≡◌, refl, sym, ap, ◌∙◌, inl, inr, Bool-cases,
  [], ◌∷◌, ◌++◌, length, length-append, replicate, length-replicate, arith, Text,
}
use vms_ai.Hash.Words.{low_bytes, length-low_bytes}
use vms_ai.Hash.Sha256
use vms_ai.Hash.Sha256.{grow}
use vms_ai.Hash.Sha1
use vms_ai.Hash.Sha1.{push_zeros}

-- The zeros that bring n bytes to 56 beyond a multiple of 64.
abbrev pub missing : ℕ → ℕ
missing n = (120 - n % 64) % 64

grow-missing : (fuel n : ℕ) → missing n < fuel → grow fuel n ≡ n + missing n
unfolding grow
grow-missing zero n h = elim h [ ]
grow-missing (suc fuel) n h = elim (Bool-cases (n % 64 == 56)) [
  | inl b ↦ rw b (ground arith)
  | inr b ↦ rw b (grow-missing fuel (n + 1) (ground arith) ∙ ground arith)
]

-- One zero more, then what the longer message lacks.
append_zero :
    (msg : Text) (m k : ℕ) → k ≡ suc m → (msg ++ 0 ∷ []) ++ replicate m 0 ≡ msg ++ replicate k 0
append_zero msg m k e = rw (e, append_assoc msg (0 ∷ []) (replicate m 0)) refl

append_none : (msg : Text) (k : ℕ) → k ≡ 0 → msg ≡ msg ++ replicate k 0
append_none msg k e = rw (e, append-nil msg) refl

length_longer : (msg : Text) → length (msg ++ 0 ∷ []) ≡ length msg + 1
length_longer msg = omega (arith, length-append msg (0 ∷ []))

push_zeros-missing :
    (fuel : ℕ) (msg : Text)
    → missing (length msg) < fuel
    → push_zeros fuel msg ≡ msg ++ replicate (missing (length msg)) 0
unfolding push_zeros
push_zeros-missing zero msg h = elim h [ ]
push_zeros-missing (suc fuel) msg h = elim (Bool-cases (length msg * 8 % 512 == 448)) [
  | inl b ↦ rw b (append_none msg (missing (length msg)) (ground arith))
  | inr b ↦ rw b (
      push_zeros-missing fuel (msg ++ 0 ∷ []) (ground (arith, length_longer msg))
      ∙ append_zero msg (missing (length (msg ++ 0 ∷ []))) (missing (length msg))
          (ground (arith, length_longer msg)))
]

-- A number from its bytes, highest first.
abbrev pub number : ℕ → Text → ℕ
number high [] = high
number high (c ∷ cs) = number (high * 256 + c) cs

number-append : (high : ℕ) (s : Text) (c : ℕ) → number high (s ++ c ∷ []) ≡ number high s * 256 + c
number-append high [] c = refl
number-append high (d ∷ s) c = number-append (high * 256 + d) s c

-- What is left of x after n bytes.
abbrev above : ℕ → ℕ → ℕ
above zero x = x
above (suc n) x = above n (x / 256)

number-low_bytes : (n x : ℕ) → above n x ≡ 0 → number 0 (low_bytes n x) ≡ x
unfolding low_bytes
number-low_bytes zero x h = sym h
number-low_bytes (suc n) x h =
    omega (arith, number-append 0 (low_bytes n (x / 256)) (x % 256), number-low_bytes n (x / 256) h)

-- A message as FIPS 180 pads it: the bit 1, fewest zeros, and the length in bits on 64 bits.
pub record IsPadded (input msg : Text) : Type 0 where
  pub zeros : ℕ
  pub length_bytes : Text
  pub shape : msg ≡ input ++ (128 ∷ (replicate zeros 0 ++ length_bytes))
  pub few : zeros < 64
  pub eight : length length_bytes ≡ 8
  pub size : number 0 length_bytes ≡ length input * 8 % 18446744073709551616
  pub whole : length msg % 64 ≡ 0

-- The padding of either digest, from the zeros that it puts in.
filled-IsPadded :
    (input : Text) (msg : Text)
    → msg
      ≡ input
        ++ (128
            ∷ (replicate (missing (length input + 1)) 0
                ++ low_bytes 8 (length input * 8 % 18446744073709551616)))
    → IsPadded input msg
filled-IsPadded input msg e =
    let n : ℕ = length input * 8 % 18446744073709551616 in
    let z : ℕ = missing (length input + 1) in
    let zs = replicate z 0 ++ low_bytes 8 n in
    record {
      zeros = z;
      length_bytes = low_bytes 8 n;
      shape = e;
      few = omega arith;
      eight = length-low_bytes 8 n;
      size = number-low_bytes 8 n (omega arith);
      whole = omega (
        arith,
        ap (λ (m : Text). length m) e,
        length-append input (128 ∷ zs),
        length-append (replicate z 0) (low_bytes 8 n),
        length-replicate {A = ℕ} z 0,
        length-low_bytes 8 n,
      );
    }

-- The message in its padding, before the names of the two classes.
abbrev filled : Text → ℕ → Text
filled input k =
    input ++ (128 ∷ (replicate k 0 ++ low_bytes 8 (length input * 8 % 18446744073709551616)))

sha256-filled : (input : Text) → Sha256.padded input ≡ filled input (missing (length input + 1))
unfolding Sha256.padded
sha256-filled input =
    let e = grow-missing 64 (length input + 1) (omega arith) in
    let same : grow 64 (length input + 1) - (length input + 1) ≡ missing (length input + 1) =
      omega (arith, e) in
    ap (filled input) same

regroup :
    (input zs rest : Text) → ((input ++ 128 ∷ []) ++ zs) ++ rest ≡ input ++ (128 ∷ (zs ++ rest))
regroup input zs rest =
    rw (append_assoc (input ++ 128 ∷ []) zs rest, append_assoc input (128 ∷ []) (zs ++ rest)) refl

sha1-filled : (input : Text) → Sha1.padded input ≡ filled input (missing (length input + 1))
unfolding Sha1.padded
sha1-filled input =
    let size : length (input ++ 128 ∷ []) ≡ length input + 1 =
      omega (arith, length-append input (128 ∷ [])) in
    let rest = low_bytes 8 (length input * 8 % 18446744073709551616) in
    ap (λ (m : Text). m ++ rest) (push_zeros-missing 64 (input ++ 128 ∷ []) (omega arith))
    ∙ regroup input (replicate (missing (length (input ++ 128 ∷ []))) 0) rest
    ∙ ap (λ (k : ℕ). filled input (missing k)) size

-- Both digests pad a message in one way: the message, a byte of 128, fewer than 64 zeros and eight
-- bytes that are the message's length in bits (modulo 2^64), together a multiple of 64 bytes, so
-- that the loops over the chunks miss nothing and read nothing beyond it.
pub padded-IsPadded :
    (input : Text)
    → IsPadded input (Sha256.padded input) × (Sha1.padded input ≡ Sha256.padded input)
padded-IsPadded input = (
  filled-IsPadded input (Sha256.padded input) (sha256-filled input),
  sha1-filled input ∙ sym (sha256-filled input),
)

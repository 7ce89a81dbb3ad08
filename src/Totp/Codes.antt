-- ===== src/Totp/Codes.antt =====
-- Which codes are let in.
use vms_ai.Prelude.{
  ℕ, zero, suc, ◌+◌, ◌-◌, ◌<◌, ◌≤◌, ◌==◌, ◌≡◌, ◌≢◌, ◌↔◌, refl, sym, ap, ◌∙◌, inl, inr, true, false,
  Bool-cases, some, [], ◌∷◌, length, arith, Text, text_beq_iff, ℤ, pos, negsuc, pos_part, neg_part,
  ◌+ℤ◌, ◌≤ℤ◌, int_laws, eq_of_parts, +ℤ_parts,
}
use vms_ai.Totp.{
  generated_code, matches_at, try_steps, rounds_of, opposite_step, base32_decode, verify_code,
}
use vms_ai.Totp.Lengths.{generated_code-some}

-- The code of a step.
matches_at_iff :
    (key code : Text) (seconds : ℕ) (i : ℤ)
    → (matches_at key code seconds i ≡ true) ↔ (generated_code key seconds i ≡ some code)
unfolding matches_at
matches_at_iff key code seconds i =
    let (generated, e, _) = generated_code-some key seconds i in
    rw (e, matches_at)
      (
        λ h. ap (λ c. some c) ((text_beq_iff generated code).0 h),
        λ h. (text_beq_iff generated code).1 (some_injective h),
      )
  where
    some_injective : {a b : Text} → some a ≡ some b → a ≡ b
    some_injective h = cc

-- The rounds are those from i on.
try_steps_sound :
    (key code : Text) (seconds n : ℕ) (i : ℤ)
    → try_steps key code seconds n i ≡ true
    → (k : ℕ) × (k < n) × (matches_at key code seconds (i +ℤ pos k) ≡ true)
unfolding try_steps
try_steps_sound key code seconds zero i h = cc
try_steps_sound key code seconds (suc n) i h = elim (Bool-cases (matches_at key code seconds i)) [
  | inl b ↦
      let e : i +ℤ pos 0 ≡ i = eq_of_parts (i +ℤ pos 0) i (omega int_laws) in
      (0, omega arith, rw e b)
  | inr b ↦
      let (k, lt, m) = try_steps_sound key code seconds n (i +ℤ pos 1) (rw b at h) in
      let e : i +ℤ pos (suc k) ≡ (i +ℤ pos 1) +ℤ pos k =
        eq_of_parts (i +ℤ pos (suc k)) ((i +ℤ pos 1) +ℤ pos k) (omega int_laws) in
      (suc k, omega arith, rw e m)
]

try_steps_complete :
    (key code : Text) (seconds n k : ℕ) (i : ℤ)
    → k < n
    → matches_at key code seconds (i +ℤ pos k) ≡ true
    → try_steps key code seconds n i ≡ true
unfolding try_steps
try_steps_complete key code seconds zero k i lt m = elim lt [ ]
try_steps_complete key code seconds (suc n) zero i lt m =
    let e : i +ℤ pos 0 ≡ i = eq_of_parts (i +ℤ pos 0) i (omega int_laws) in
    let here = rw e at m in rw here refl
try_steps_complete key code seconds (suc n) (suc k) i lt m =
    let e : i +ℤ pos (suc k) ≡ (i +ℤ pos 1) +ℤ pos k =
      eq_of_parts (i +ℤ pos (suc k)) ((i +ℤ pos 1) +ℤ pos k) (omega int_laws) in
    let later = try_steps_complete key code seconds n k (i +ℤ pos 1) (omega arith) (rw e at m) in
    elim (Bool-cases (matches_at key code seconds i)) [ inl b ↦ rw b refl | inr b ↦ rw b later ]

opposite_step_parts :
    (w : ℤ) → pos_part (opposite_step w) + pos_part w ≡ neg_part (opposite_step w) + neg_part w
unfolding opposite_step
opposite_step_parts (pos n) = ground arith
opposite_step_parts (negsuc n) = ground arith

-- The step i lies in the window.
abbrev pub InWindow : ℤ → ℤ → Type 0
InWindow window i = (pos 0 ≤ℤ i +ℤ window) × (i ≤ℤ window)

step-InWindow :
    (window : ℤ) (k : ℕ) → k < rounds_of window → InWindow window (opposite_step window +ℤ pos k)
unfolding rounds_of
step-InWindow (pos w) k h = omega (int_laws, opposite_step_parts (pos w))
step-InWindow (negsuc w) k h = elim h [ ]

-- The number of the round that tries the step i.
in_rounds :
    (window i : ℤ)
    → InWindow window i
    → (k : ℕ) × (k < rounds_of window) × (opposite_step window +ℤ pos k ≡ i)
unfolding rounds_of
in_rounds (pos w) i (low, high) =
    let k : ℕ = w + pos_part i - neg_part i in
    let o = opposite_step_parts (pos w) in
    let sum = +ℤ_parts i (pos w) in
    let bound : neg_part i ≤ w + pos_part i = omega (arith, sum) in
    (
      k,
      omega arith,
      eq_of_parts (opposite_step (pos w) +ℤ pos k) i
          (omega (arith, +ℤ_parts (opposite_step (pos w)) (pos k), o)),
    )
in_rounds (negsuc w) i (low, high) = absurd (omega int_laws)

module _ (secret code : Text) (window : ℤ) (seconds : ℕ) where
  abbrev key : Text
  key = base32_decode secret

  -- The three tests, and the loop.
  verify_sound :
      verify_code secret code window seconds ≡ true
      → ((length key == 0) ≡ false)
        × (try_steps key code seconds (rounds_of window) (opposite_step window) ≡ true)
  unfolding verify_code
  verify_sound h = ground arith

  verify_complete :
      length code ≡ 6
      → (length secret == 0) ≡ false
      → (length key == 0) ≡ false
      → try_steps key code seconds (rounds_of window) (opposite_step window) ≡ true
      → verify_code secret code window seconds ≡ true
  unfolding verify_code
  verify_complete h1 h2 h3 h4 = ground arith

some_text : (s : Text) → s ≢ [] → (length s == 0) ≡ false
some_text [] h = absurd (h refl)
some_text (c ∷ s) h = ground arith

no_text : (s : Text) → (length s == 0) ≡ false → s ≢ []
no_text s h e = let bad = ap (λ (t : Text). length t) e in ground arith

some_secret : (secret : Text) → base32_decode secret ≢ [] → (length secret == 0) ≡ false
unfolding base32_decode
some_secret [] h = absurd (h refl)
some_secret (c ∷ s) h = ground arith

same_length : (a b : Text) → some a ≡ some b → length a ≡ length b
same_length a b h = ap (λ (t : Text). length t) (let e : a ≡ b = cc in e)

-- verifyCode lets a code in exactly when the secret decodes to at least one byte and some step no
-- further from now than the window has this code; the code of every step is defined (no read of
-- truncate is outside of the digest) and has six characters.
pub verify_code_iff :
    (secret code : Text) (window : ℤ) (seconds : ℕ)
    → ((verify_code secret code window seconds ≡ true) ↔ (
        (base32_decode secret ≢ [])
        × (i : ℤ) × InWindow window i
        × (generated_code (base32_decode secret) seconds i ≡ some code)))
      × ((i : ℤ)
          → (c : Text) × (generated_code (base32_decode secret) seconds i ≡ some c)
            × (length c ≡ 6))
verify_code_iff secret code window seconds = (
  (
    λ h.
        let (filled, tried) = verify_sound secret code window seconds h in
        let (k, lt, m) =
          try_steps_sound (base32_decode secret) code seconds (rounds_of window)
            (opposite_step window) tried in
        (
          no_text (base32_decode secret) filled,
          opposite_step window +ℤ pos k,
          step-InWindow window k lt,
          (matches_at_iff (base32_decode secret) code seconds (opposite_step window +ℤ pos k)).0 m,
        ),
    λ (filled, i, inside, e).
        let (k, lt, at) = in_rounds window i inside in
        let (c, f, six) = generated_code-some (base32_decode secret) seconds i in
        let m : matches_at (base32_decode secret) code seconds (opposite_step window +ℤ pos k)
            ≡ true =
          rw at ((matches_at_iff (base32_decode secret) code seconds i).1 e) in
        verify_complete secret code window seconds (same_length code c (sym e ∙ f) ∙ six)
          (some_secret secret filled) (some_text (base32_decode secret) filled)
          (try_steps_complete (base32_decode secret) code seconds (rounds_of window) k
            (opposite_step window) lt m),
  ),
  generated_code-some (base32_decode secret) seconds,
)

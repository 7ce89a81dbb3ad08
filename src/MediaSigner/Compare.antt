-- ===== src/MediaSigner/Compare.antt =====
-- The comparison of signatures is that of texts.
use Prim.Native.Nat.{bit_xor, bit_or, bit_xor-bitwise, bit_or-bitwise, digits, differ, max}
use vms_ai.Prelude.{
  ℕ, zero, suc, ◌/◌, ◌%◌, ◌≤◌, ◌≡◌, ◌==◌, ==_iff, refl, sym, ap, ◌∙◌, true, not, Bool-cases, inl,
  inr, [], ◌∷◌, length, Text, arith,
}
use vms_ai.MediaSigner.{differences, constant_time_equals}

differ_zero : (x y : ℕ) → differ x y ≡ 0 → x ≡ y
differ_zero zero y h = sym h
differ_zero (suc x) zero h = h
differ_zero (suc x) (suc y) h = ap suc (differ_zero x y h)

differ_refl : (x : ℕ) → differ x x ≡ 0
differ_refl zero = refl
differ_refl (suc x) = differ_refl x

xor_digits : (n a b : ℕ) → a ≤ n → digits (λ b. b) differ n a b ≡ 0 → a ≡ b
xor_digits zero a b le h = omega arith
xor_digits (suc n) zero b le h = sym h
xor_digits (suc n) (suc a) b le h =
    let low = differ_zero (suc a % 2) (b % 2) (omega arith) in
    let high = xor_digits n (suc a / 2) (b / 2) (omega arith) (omega arith) in omega arith

xor_same : (n a : ℕ) → a ≤ n → digits (λ b. b) differ n a a ≡ 0
xor_same zero a le = omega arith
xor_same (suc n) zero le = refl
xor_same (suc n) (suc a) le =
    omega (arith, xor_same n (suc a / 2) (omega arith), differ_refl (suc a % 2))

or_digits : (n a b : ℕ) → a ≤ n → digits (λ b. b) max n a b ≡ 0 → (a ≡ 0) × (b ≡ 0)
or_digits zero a b le h = (omega arith, h)
or_digits (suc n) zero b le h = (refl, h)
or_digits (suc n) (suc a) b le h =
    let high = or_digits n (suc a / 2) (b / 2) (omega arith) (omega arith) in omega arith

bit_xor_zero : (a b : ℕ) → bit_xor a b ≡ 0 → a ≡ b
bit_xor_zero a b h = xor_digits a a b (omega arith) (sym (λ i. bit_xor-bitwise a b i) ∙ h)

bit_xor_self : (a : ℕ) → bit_xor a a ≡ 0
bit_xor_self a = (λ i. bit_xor-bitwise a a i) ∙ xor_same a a (omega arith)

bit_or_zero : (a b : ℕ) → bit_or a b ≡ 0 → (a ≡ 0) × (b ≡ 0)
bit_or_zero a b h = or_digits a a b (omega arith) (sym (λ i. bit_or-bitwise a b i) ∙ h)

differences_zero :
    (diff : ℕ) (s t : Text) → length s ≡ length t → differences diff s t ≡ 0 → (diff ≡ 0) × (s ≡ t)
unfolding differences
differences_zero diff [] [] e h = (h, refl)
differences_zero diff [] (b ∷ t) e h = absurd (omega arith)
differences_zero diff (a ∷ s) [] e h = absurd (omega arith)
differences_zero diff (a ∷ s) (b ∷ t) e h =
    let (gathered, rest) = differences_zero (bit_or diff (bit_xor a b)) s t (omega arith) h in
    let (none_before, same) = bit_or_zero diff (bit_xor a b) gathered in
    (none_before, λ i. bit_xor_zero a b same i ∷ rest i)

differences_same : (s : Text) → differences 0 s s ≡ 0
unfolding differences
differences_same [] = refl
differences_same (a ∷ s) =
    ap (λ d. differences d s s) ((λ i. bit_or-bitwise 0 (bit_xor a a) i) ∙ bit_xor_self a)
    ∙ differences_same s

pub constant_time_equals_sound : (s t : Text) → constant_time_equals s t ≡ true → s ≡ t
unfolding constant_time_equals
constant_time_equals_sound s t h = elim (Bool-cases (length s == length t)) [
  | inl e ↦
      (differences_zero 0 s t ((==_iff (length s) (length t)).0 e)
        ((==_iff (differences 0 s t) 0).0 (rw (e) at h))).1
  | inr e ↦ let bad = rw (e) at h in cc
]

pub constant_time_equals_refl : (s : Text) → constant_time_equals s s ≡ true
unfolding constant_time_equals
constant_time_equals_refl s =
    rw ((==_iff (length s) (length s)).1 refl, not)
      ((==_iff (differences 0 s s) 0).1 (differences_same s))

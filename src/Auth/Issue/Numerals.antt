-- ===== src/Auth/Issue/Numerals.antt =====
-- std::stoi reads what std::to_string writes.
use mathlib.Core.List.{append-nil, append_assoc}
use vms_ai.Prelude.{
  ℕ, zero, suc, ◌+◌, ◌*◌, ◌/◌, ◌%◌, ◌<◌, ltb, ◌==◌, ◌≡◌, refl, sym, ap, ◌∙◌, ℤ, pos, negsuc, none,
  some, [], ◌∷◌, ◌++◌, length, Bool-cases, inl, inr, Text, arith, true, false,
}
use vms_ai.Totp.{decimal}
use vms_ai.Auth.Numbers.{◌>>=◌, read_digits, bounded, read_signed, skip_spaces, is_space, stoi}
use vms_ai.Auth.Issue.{to_string}

-- 10 to the k
abbrev power : ℕ → ℕ
power zero = 1
power (suc k) = 10 * power k

-- A number of type int.
abbrev pub IsInt : ℤ → Type 0
IsInt (pos n) = n < 2147483648
IsInt (negsuc n) = n < 2147483648

first_digit : (n : ℕ) (s : Text) → n < 10 → read_digits none ((48 + n) ∷ s) ≡ read_digits (some n) s
unfolding read_digits
first_digit n s h = ground arith

next_digit :
    (m n : ℕ) (s : Text)
    → n < 10
    → read_digits (some m) ((48 + n) ∷ s) ≡ read_digits (some (m * 10 + n)) s
unfolding read_digits
next_digit m n s h = ground arith

read_digits-decimal :
    (k n : ℕ) (s : Text)
    → n < power (suc k)
    → read_digits none (decimal (suc k) n ++ s) ≡ read_digits (some n) s
unfolding decimal
read_digits-decimal zero n s h = elim (Bool-cases (ltb n 10)) [
  | inl b ↦ rw b (first_digit n s (ground arith))
  | inr b ↦ absurd (ground arith)
]
read_digits-decimal (suc k) n s h = elim (Bool-cases (ltb n 10)) [
  | inl b ↦ rw b (first_digit n s (ground arith))
  | inr b ↦
      rw (b, append_assoc)
        (read_digits-decimal k (n / 10) ((48 + n % 10) ∷ s) (omega arith)
          ∙ next_digit (n / 10) (n % 10) s (omega arith)
          ∙ ap (λ m. read_digits (some m) s) (omega arith))
]

decimal-cons : (k n : ℕ) → (d : ℕ) × (s : Text) × (d < 10) × (decimal (suc k) n ≡ (48 + d) ∷ s)
unfolding decimal
decimal-cons zero n = elim (Bool-cases (ltb n 10)) [
  | inl b ↦ (n, [], ground arith, rw b refl)
  | inr b ↦ (n % 10, [], omega arith, rw b refl)
]
decimal-cons (suc k) n = elim (Bool-cases (ltb n 10)) [
  | inl b ↦ (n, [], ground arith, rw b refl)
  | inr b ↦
      let (d, s, small, e) = decimal-cons k (n / 10) in
      (d, s ++ (48 + n % 10) ∷ [], small, rw (b, e) refl)
]

-- A text that starts with a digit is read as its digits.
read_signed-digit :
    (d : ℕ) (s : Text)
    → d < 10
    → stoi ((48 + d) ∷ s) ≡ (read_digits none ((48 + d) ∷ s) >>= bounded 2147483648 false)
unfolding stoi skip_spaces is_space read_signed
read_signed-digit d s h = ground arith

read_digits-nil : (n : ℕ) → read_digits (some n) [] ≡ some n
unfolding read_digits
read_digits-nil n = refl

digits : (n : ℕ) → n < 10000000000 → read_digits none (decimal 10 n) ≡ some n
digits n h =
    ap (read_digits none) (sym (append-nil (decimal 10 n)))
    ∙ read_digits-decimal 9 n [] h
    ∙ read_digits-nil n

minus : (s : Text) → stoi (45 ∷ s) ≡ (read_digits none s >>= bounded 2147483648 true)
unfolding stoi skip_spaces is_space read_signed
minus s = refl

bounded_pos : (n : ℕ) → n < 2147483648 → bounded 2147483648 false n ≡ some (pos n)
unfolding bounded
bounded_pos n h = ground arith

bounded_neg : (n : ℕ) → n < 2147483648 → bounded 2147483648 true (suc n) ≡ some (negsuc n)
unfolding bounded
bounded_neg n h = ground arith

-- Every int comes back.
pub stoi-to_string : (z : ℤ) → IsInt z → stoi (to_string z) ≡ some z
unfolding to_string
stoi-to_string (pos n) h =
    let (d, s, small, e) = decimal-cons 9 n in
    ap stoi e
    ∙ read_signed-digit d s small
    ∙ ap (λ t. read_digits none t >>= bounded 2147483648 false) (sym e)
    ∙ ap (λ o. o >>= bounded 2147483648 false) (digits n (omega arith))
    ∙ bounded_pos n h
stoi-to_string (negsuc n) h =
    minus (decimal 10 (suc n))
    ∙ ap (λ o. o >>= bounded 2147483648 true) (digits (suc n) (omega arith))
    ∙ bounded_neg n h

-- No int is printed as nothing.
pub to_string-cons : (z : ℤ) → (length (to_string z) == 0) ≡ false
unfolding to_string
to_string-cons (pos n) =
    let (d, s, small, e) = decimal-cons 9 n in ap (λ t. length t == 0) e ∙ ground arith
to_string-cons (negsuc n) = ground arith

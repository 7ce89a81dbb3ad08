-- ===== src/Auth/Numbers.antt =====
-- The functions of the standard library that the authentication calls: std::stoi and std::stoll, and
-- the searches in a string.
use vms_ai.Prelude.{
  ℕ, zero, suc, ◌+◌, ◌-◌, ◌*◌, ◌==◌, ltb, leb, ℤ, pos, negsuc, Bool, true, false, ◌&&◌, ◌||◌,
  Option, none, some, [], ◌∷◌, if◌then◌else◌, Text, ◌≡◌, refl,
}
use vms_ai.MediaSigner.{starts_with}

infixl 5 ◌>>=◌ ◌>>◌
abbrev pub ◌>>=◌ {ℓ κ} : {A : Type ℓ} {B : Type κ} → Option A → (A → Option B) → Option B
none >>= f = none
some a >>= f = f a

abbrev pub ◌>>◌ {ℓ} : {B : Type ℓ} → Option (Unit {0}) → Option B → Option B
m >> k = m >>= λ _. k

-- return false unless the test holds
abbrev pub guard : Bool → Option (Unit {0})
guard true = some tt
guard false = none

-- std::isspace
unfoldable pub is_space : ℕ → Bool
is_space c = c == 32 || (leb 9 c && leb c 13)

unfoldable pub skip_spaces : Text → Text
skip_spaces [] = []
skip_spaces (c ∷ s) = let rest = skip_spaces s in if is_space c then rest else c ∷ s

-- The number that the digits at the front stand for, none where there is no digit.
unfoldable pub read_digits : Option ℕ → Text → Option ℕ
read_digits seen [] = seen
read_digits seen (c ∷ s) =
    let before : ℕ = elim seen [ none ↦ 0 | some n ↦ n ] in
    let rest = read_digits (some (before * 10 + (c - 48))) s in
    if leb 48 c && leb c 57 then rest else seen

unfoldable pub bounded : ℕ → Bool → ℕ → Option ℤ
bounded limit false n = if ltb n limit then some (pos n) else none
bounded limit true zero = some (pos 0)
bounded limit true (suc n) = if ltb n limit then some (negsuc n) else none

unfoldable pub read_signed : ℕ → Text → Option ℤ
unfolding read_digits bounded
read_signed limit [] = none
read_signed limit (c ∷ s) =
    if c == 45
    then read_digits none s >>= bounded limit true
    else if c == 43
    then read_digits none s >>= bounded limit false
    else read_digits none (c ∷ s) >>= bounded limit false

-- none where the call throws
unfoldable pub stoi : Text → Option ℤ
unfolding skip_spaces read_signed is_space
stoi s = read_signed 2147483648 (skip_spaces s)

unfoldable pub stoll : Text → Option ℤ
unfolding skip_spaces read_signed is_space
stoll s = read_signed 9223372036854775808 (skip_spaces s)

-- What stands before and behind the first c.
unfoldable pub split_at_first : ℕ → Text → Option (Text × Text)
split_at_first c [] = none
split_at_first c (d ∷ s) =
    let rest = split_at_first c s in
    if d == c then some ([], s) else elim rest [ none ↦ none | some (a, b) ↦ some (d ∷ a, b) ]

-- What stands before and behind the last c.
unfoldable pub split_at_last : ℕ → Text → Option (Text × Text)
split_at_last c [] = none
split_at_last c (d ∷ s) = elim (split_at_last c s) [
  | some (a, b) ↦ some (d ∷ a, b)
  | none ↦ if d == c then some ([], s) else none
]

-- s.substr(0, s.find(c)), which is s where there is no c
unfoldable pub before_first : ℕ → Text → Text
unfolding split_at_first
before_first c s = elim (split_at_first c s) [ none ↦ s | some (a, _) ↦ a ]

unfoldable pub drop_prefix : Text → Text → Text
drop_prefix s [] = s
drop_prefix [] (c ∷ prefix) = []
drop_prefix (d ∷ s) (c ∷ prefix) = drop_prefix s prefix

-- What stands behind the first place where s has the part.
unfoldable pub behind_part : Text → Text → Option Text
unfolding drop_prefix starts_with
behind_part part [] = none
behind_part part (d ∷ s) =
    let rest = behind_part part s in
    if starts_with (d ∷ s) part then some (drop_prefix (d ∷ s) part) else rest

unfoldable pub occurrences : ℕ → Text → ℕ
occurrences c [] = 0
occurrences c (d ∷ s) = (if d == c then 1 else 0) + occurrences c s

-- A chain that ends well has gone through each of its parts.
pub >>=-eq-some {ℓ κ} :
    {A : Type ℓ} {B : Type κ} (m : Option A) (f : A → Option B) {b : B}
    → (m >>= f) ≡ some b
    → (a : A) × (m ≡ some a) × (f a ≡ some b)
>>=-eq-some none f h = cc
>>=-eq-some (some a) f h = (a, refl, h)

pub guard-eq-some {ℓ} :
    {B : Type ℓ} (t : Bool) (k : Option B) {b : B}
    → (guard t >> k) ≡ some b
    → (t ≡ true) × (k ≡ some b)
guard-eq-some true k h = (refl, h)
guard-eq-some false k h = cc

pub some_injective {ℓ} : {A : Type ℓ} {a b : A} → some a ≡ some b → a ≡ b
some_injective h = cc

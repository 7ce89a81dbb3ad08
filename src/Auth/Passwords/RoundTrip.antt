-- ===== src/Auth/Passwords/RoundTrip.antt =====
-- A password that was hashed is verified.
use vms_ai.Prelude.{
  ℕ, zero, suc, ◌/◌, ◌%◌, ◌+◌, ◌<◌, ltb, ◌==◌, ◌≡◌, ◌≢◌, refl, sym, ap, ◌∙◌, inl, inr, true, false,
  Bool-cases, Option, Option-cases, none, some, [], ◌∷◌, ◌++◌, length, if◌then◌else◌, Text, bytes,
  text_beq, text_beq_iff, arith,
}
use vms_ai.MediaSigner.{starts_with}
use vms_ai.MediaSigner.Compare.{constant_time_equals_refl}
use vms_ai.Hash.Sha256.{hash, hex_places}
use vms_ai.Auth.Numbers.{split_at_first, some_injective}
use vms_ai.Auth.Users.{User}
use vms_ai.Auth.Passwords.{
  Argon2, is_argon2_hash, hash_password_argon2, salt_and_hash, matches_argon2,
  verify_password_argon2, hash_password_v2, has_salt, verify_user_password, hash_password_with_salt,
}

-- A salt as the generators draw it: 32 characters, none of which is the mark between the fields.
pub record IsSalt (salt : Text) : Type 0 where
  pub size : length salt ≡ 32
  pub plain : split_at_first b'$' salt ≡ none

hex_places-cons : (n x : ℕ) → (c : ℕ) × (s : Text) × (36 < c) × (hex_places (suc n) x ≡ c ∷ s)
unfolding hex_places
hex_places-cons zero x =
    (if ltb (x % 16) 10 then 48 + x % 16 else 87 + x % 16, [], ground arith, refl)
hex_places-cons (suc n) x =
    let (c, s, above, e) = hex_places-cons n (x / 16) in
    (c, s ++ (if ltb (x % 16) 10 then 48 + x % 16 else 87 + x % 16) ∷ [], above, rw e refl)

append-cons :
    (s t : Text)
    → (c : ℕ) × (r : Text) × (36 < c) × (s ≡ c ∷ r)
    → (c : ℕ) × (r : Text) × (36 < c) × (s ++ t ≡ c ∷ r)
append-cons s t (c, r, above, e) = (c, r ++ t, above, rw e refl)

hash-cons : (input : Text) → (c : ℕ) × (s : Text) × (36 < c) × (hash input ≡ c ∷ s)
unfolding hash
hash-cons input = append-cons (hex_places 8 _) _ (hex_places-cons 7 _)

not_argon2 : (c : ℕ) (s : Text) → 36 < c → is_argon2_hash (c ∷ s) ≡ false
unfolding is_argon2_hash starts_with
not_argon2 c s h = ground arith

text_beq-length : (s t : Text) → length s ≢ length t → text_beq s t ≡ false
text_beq-length s t h = elim (Bool-cases (text_beq s t)) [
  | inl b ↦ absurd (h (ap length ((text_beq_iff s t).0 b)))
  | inr b ↦ b
]

has_salt-IsSalt : (salt : Text) → IsSalt salt → has_salt salt ≡ true
unfolding has_salt
has_salt-IsSalt salt k =
    rw
      (
        text_beq-length salt (bytes "argon2") (omega (arith, k.size)),
        text_beq-length salt (bytes "sha256") (omega (arith, k.size)),
      )
      (ground (arith, k.size))

split_at_first-plain :
    (c : ℕ) (s t : Text) → split_at_first c s ≡ none → split_at_first c (s ++ c ∷ t) ≡ some (s, t)
unfolding split_at_first
split_at_first-plain c [] t h = ground arith
split_at_first-plain c (d ∷ s) t h = elim (Bool-cases (d == c)) [
  | inl b ↦ let bad = rw b at h in cc
  | inr b ↦ elim (Option-cases (split_at_first c s)) [
    | inl e ↦ rw (b, split_at_first-plain c s t e) refl
    | inr (q, e) ↦ let bad = rw (b, e) at h in cc
  ]
]

-- The text that hashPasswordArgon2 returns.
abbrev encoded : Text → Text → Text
encoded salt raw = bytes "$argon2id$v=19$m=65536,t=3,p=4$" ++ (salt ++ (bytes "$" ++ raw))

salt_and_hash-encoded :
    (salt raw : Text) → IsSalt salt → salt_and_hash (encoded salt raw) ≡ some (salt, raw)
unfolding salt_and_hash split_at_first
salt_and_hash-encoded salt raw k = split_at_first-plain b'$' salt raw k.plain

matches-encoded :
    (argon2 : Argon2) (password salt raw : Text)
    → IsSalt salt
    → argon2 password salt ≡ some raw
    → length raw ≡ 64
    → matches_argon2 (some argon2) password (encoded salt raw) ≡ some true
unfolding matches_argon2 hash_password_argon2
matches-encoded argon2 password salt raw k e size =
    rw
      (
        salt_and_hash-encoded salt raw k,
        k.size,
        size,
        e,
        constant_time_equals_refl (encoded salt raw),
      )
      refl

verify-encoded :
    (argon2 : Argon2) (password salt raw : Text) (user : User)
    → IsSalt salt
    → argon2 password salt ≡ some raw
    → length raw ≡ 64
    → user.password_hash ≡ encoded salt raw
    → verify_user_password (some argon2) password user ≡ true
unfolding verify_user_password verify_password_argon2 is_argon2_hash starts_with
verify-encoded argon2 password salt raw user k e size h =
    rw (h, matches-encoded argon2 password salt raw k e size) (ground arith)

v2-cons :
    (password username salt : Text)
    → (c : ℕ) × (s : Text) × (36 < c) × (hash_password_v2 password username salt ≡ c ∷ s)
unfolding hash_password_v2
v2-cons password username salt = hash-cons (password ++ (username ++ salt))

length-cons : (c : ℕ) (s : Text) → (length (c ∷ s) == 0) ≡ false
length-cons c s = ground arith

verify-hash :
    (library : Option Argon2) (password salt : Text) (user : User)
    → IsSalt salt
    → user.password_hash ≡ hash_password_v2 password user.username salt
    → user.salt ≡ salt
    → verify_user_password library password user ≡ true
unfolding verify_user_password
verify-hash library password salt user k h e =
    let (c, s, above, starts) = v2-cons password user.username salt in
    let full : user.password_hash ≡ c ∷ s = h ∙ starts in
    let longer : (length user.password_hash == 0) ≡ false =
      ap (λ t. length t == 0) full ∙ length-cons c s in
    let older : is_argon2_hash user.password_hash ≡ false =
      ap is_argon2_hash full ∙ not_argon2 c s above in
    let salted : has_salt user.salt ≡ true = ap has_salt e ∙ has_salt-IsSalt salt k in
    let same : text_beq (hash_password_v2 password user.username user.salt) user.password_hash
        ≡ true =
      (text_beq_iff _ _).1 (ap (hash_password_v2 password user.username) e ∙ sym h) in
    rw (longer, older, salted, same) refl

-- A password that hashPasswordWithSalt hashes, with a salt of 32 characters and no $ in it, is verified
-- by verifyUserPassword where its hash and its salt are stored for a user of the same name: with the
-- argon2 library, whose hashes have 64 characters, and without it.
pub verify_user_password-hash_password_with_salt :
    (library : Option Argon2) (password salt : Text) (user : User)
    → IsSalt salt
    → ((argon2 : Argon2) (raw : Text)
        → library ≡ some argon2
        → argon2 password salt ≡ some raw
        → length raw ≡ 64)
    → hash_password_with_salt library salt password user.username
      ≡ some (user.password_hash, user.salt)
    → verify_user_password library password user ≡ true
unfolding hash_password_with_salt hash_password_argon2
verify_user_password-hash_password_with_salt none password salt user k size h =
    verify-hash none password salt user k (sym (ap (λ p. p.0) (some_injective h)))
      (sym (ap (λ p. p.1) (some_injective h)))
verify_user_password-hash_password_with_salt (some argon2) password salt user k size h =
    elim (Option-cases (argon2 password salt)) [
      | inl e ↦ let bad = rw (k.size, e) at h in cc
      | inr (raw, e) ↦
          let stored = some_injective (rw (k.size, e) at h) in
          verify-encoded argon2 password salt raw user k e (size argon2 raw refl e)
            (sym (ap (λ p. p.0) stored))
    ]

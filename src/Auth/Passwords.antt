-- ===== src/Auth/Passwords.antt =====
-- cpp-backend/include/utils/password_hash.h, and the passwords of
-- cpp-backend/src/api/user_controller.cpp. The argon2 library is a parameter, from the password and the
-- salt in hexadecimal to the hash in hexadecimal; none: it fails.
pub mod RoundTrip
use vms_ai.Prelude.{
  ◌==◌, Bool, false, not, ◌&&◌, ◌||◌, Option, none, some, ◌++◌, length, drop, if◌then◌else◌, Text,
  bytes, text_beq,
}
use vms_ai.MediaSigner.{starts_with, constant_time_equals}
use vms_ai.Hash.Sha256.{hash}
use vms_ai.Auth.Numbers.{◌>>=◌, ◌>>◌, guard, split_at_first}
use vms_ai.Auth.Users.{User}

abbrev pub Argon2 : Type 0
Argon2 = Text → Text → Option Text

unfoldable pub is_argon2_hash : Text → Bool
is_argon2_hash h = starts_with h (bytes "$argon2id$")

-- The library may not be compiled in.
unfoldable pub hash_password_argon2 : Option Argon2 → Text → Text → Option Text
hash_password_argon2 none password salt_hex = none
hash_password_argon2 (some argon2) password salt_hex = do
  guard (length salt_hex == 32)
  raw ← argon2 password salt_hex
  some (bytes "$argon2id$v=19$m=65536,t=3,p=4$" ++ (salt_hex ++ (bytes "$" ++ raw)))

-- The salt and the hash, behind the third and the fourth $ after the first character.
unfoldable pub salt_and_hash : Text → Option (Text × Text)
unfolding split_at_first
salt_and_hash encoded = do
  (_, after_name) ← split_at_first b'$' (drop 1 encoded)
  (_, after_version) ← split_at_first b'$' after_name
  (_, after_costs) ← split_at_first b'$' after_version
  split_at_first b'$' after_costs

unfoldable pub matches_argon2 : Option Argon2 → Text → Text → Option Bool
unfolding hash_password_argon2 salt_and_hash
matches_argon2 library password encoded = do
  (salt_hex, hash_hex) ← salt_and_hash encoded
  guard (length salt_hex == 32 && length hash_hex == 64)
  candidate ← hash_password_argon2 library password salt_hex
  some (constant_time_equals candidate encoded)

unfoldable pub verify_password_argon2 : Option Argon2 → Text → Text → Bool
unfolding matches_argon2 is_argon2_hash
verify_password_argon2 none password encoded = false
verify_password_argon2 (some argon2) password encoded =
    if is_argon2_hash encoded
    then elim (matches_argon2 (some argon2) password encoded) [ none ↦ false | some b ↦ b ]
    else false

unfoldable pub hash_password_v2 : Text → Text → Text → Text
hash_password_v2 password username salt = hash (password ++ (username ++ salt))

-- A salt that is there and is no mark of a migration.
unfoldable pub has_salt : Text → Bool
has_salt salt =
    not (length salt == 0)
    && not (text_beq salt (bytes "argon2"))
    && not (text_beq salt (bytes "sha256"))

unfoldable pub verify_user_password : Option Argon2 → Text → User → Bool
unfolding verify_password_argon2 has_salt
verify_user_password library password user =
    if length user.password_hash == 0
    then false
    else if is_argon2_hash user.password_hash
    then verify_password_argon2 library password user.password_hash
    else has_salt user.salt
        && text_beq (hash_password_v2 password user.username user.salt) user.password_hash
      || text_beq (hash (password ++ (user.username ++ bytes "VMS_GLOBAL_SALT"))) user.password_hash
      || text_beq (hash password) user.password_hash

-- The hash to store and the salt beside it; `salt` is what the generator draws.
unfoldable pub hash_password_with_salt : Option Argon2 → Text → Text → Text → Option (Text × Text)
unfolding hash_password_argon2 hash_password_v2
hash_password_with_salt none salt password username =
    some (hash_password_v2 password username salt, salt)
hash_password_with_salt (some argon2) salt password username = do
  h ← hash_password_argon2 (some argon2) password salt
  some (h, bytes "argon2")

-- ===== src/Totp/Tests.antt =====
-- Runs of totp.cpp: RFC 4648 and the test vectors of RFC 6238, cut to six digits.
use vms_ai.Prelude.{◌≡◌, ◌≢◌, refl, pos, negsuc, ◌+ℤ◌, true, bytes, some, [], ◌∷◌, arith}
use vms_ai.Hash.Sha1.{put_words}
use vms_ai.Totp.Decode.{octets, bits_of, base32_decode-octets}
use vms_ai.Totp.Codes.{InWindow, verify_code_iff}
use vms_ai.Totp.{
  symbol_of, base32_decode, generated_code, try_steps, rounds_of, opposite_step, verify_code,
}

decodes_foobar : base32_decode (bytes "MZXW6YTBOI======") ≡ bytes "foobar"
unfolding base32_decode
decodes_foobar = refl

code_at_59 : generated_code (bytes "12345678901234567890") 59 (pos 0) ≡ some (bytes "287082")
unfolding generated_code put_words
code_at_59 = refl

one_step_late :
    verify_code (bytes "GEZDGNBVGY3TQOJQGEZDGNBVGY3TQOJQ") (bytes "287082") (pos 1) 61 ≡ true
unfolding verify_code base32_decode try_steps rounds_of opposite_step put_words
one_step_late = refl

base32_decode-octets_example :
    base32_decode (bytes "MZ-xw=A") ≡ octets (bits_of (12 ∷ 25 ∷ 23 ∷ 22 ∷ []))
unfolding symbol_of
base32_decode-octets_example = base32_decode-octets (bytes "MZ-xw=A")

filled : base32_decode (bytes "GEZDGNBVGY3TQOJQGEZDGNBVGY3TQOJQ") ≢ []
unfolding base32_decode
filled h = cc

code_of_last_step :
    generated_code (base32_decode (bytes "GEZDGNBVGY3TQOJQGEZDGNBVGY3TQOJQ")) 61 (negsuc 0)
    ≡ some (bytes "287082")
unfolding generated_code base32_decode put_words
code_of_last_step = refl

inside : InWindow (pos 1) (negsuc 0)
unfolding ◌+ℤ◌
inside = omega arith

verify_code_iff_example :
    verify_code (bytes "GEZDGNBVGY3TQOJQGEZDGNBVGY3TQOJQ") (bytes "287082") (pos 1) 61 ≡ true
verify_code_iff_example =
    (verify_code_iff (bytes "GEZDGNBVGY3TQOJQGEZDGNBVGY3TQOJQ") (bytes "287082") (pos 1) 61).0.1
      (filled, negsuc 0, inside, code_of_last_step)

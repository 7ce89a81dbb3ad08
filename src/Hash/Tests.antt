-- ===== src/Hash/Tests.antt =====
-- The test vectors of FIPS 180 and RFC 2202.
use vms_ai.Prelude.{◌≡◌, refl, ◌∷◌, [], bytes, take}
use vms_ai.Hash.Sha256
use vms_ai.Hash.Sha1
use vms_ai.Hash.Padding.{padded-IsPadded}
use vms_ai.Hash.Sha256.{hash}
use vms_ai.Hash.Sha1.{put_words, digest, hmac}

hash_abc :
    hash (bytes "abc") ≡ bytes "ba7816bf8f01cfea414140de5dae2223b00361a396177a9cb410ff61f20015ad"
unfolding hash
hash_abc = refl

digest_abc : take 4 (digest (bytes "abc")) ≡ 0xa9 ∷ 0x99 ∷ 0x3e ∷ 0x36 ∷ []
unfolding digest put_words
digest_abc = refl

hmac_jefe :
    take 4 (hmac (bytes "Jefe") (bytes "what do ya want for nothing?"))
    ≡ 0xef ∷ 0xfc ∷ 0xdf ∷ 0x6a ∷ []
unfolding hmac put_words
hmac_jefe = refl

padded-IsPadded_example : Sha1.padded (bytes "abc") ≡ Sha256.padded (bytes "abc")
padded-IsPadded_example = (padded-IsPadded (bytes "abc")).1

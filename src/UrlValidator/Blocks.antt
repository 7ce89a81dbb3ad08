-- ===== src/UrlValidator/Blocks.antt =====
-- The address blocks that url_validator.cpp refuses.
use vms_ai.Prelude.{
  ℕ, ◌+◌, ◌-◌, ◌*◌, ◌/◌, ◌%◌, ◌^◌, ◌<◌, ◌≡◌, refl, Bool, ◌&&◌, ◌||◌, leb, ◌==◌, arith,
}
use vms_ai.UrlValidator.{octet, private_octets, is_private_ipv4, is_some}

-- The address is in the block of the base address and the prefix length.
abbrev pub in_block : ℕ → ℕ → ℕ → Bool
in_block base length addr = addr / 2 ^ (32 - length) == base / 2 ^ (32 - length)

abbrev pub ipv4 : ℕ → ℕ → ℕ
ipv4 a b = a * 2 ^ 24 + b * 2 ^ 16

abbrev pub blocks : ℕ → Bool
blocks addr =
    in_block (ipv4 0 0) 8 addr
    || (in_block (ipv4 10 0) 8 addr
        || (in_block (ipv4 127 0) 8 addr
            || (in_block (ipv4 169 254) 16 addr
                || (in_block (ipv4 172 16) 12 addr
                    || (in_block (ipv4 192 168) 16 addr
                        || (in_block (ipv4 192 0) 16 addr
                            || (in_block (ipv4 198 18) 15 addr
                                || (in_block (ipv4 100 64) 10 addr
                                    || (in_block (ipv4 224 0) 8 addr
                                        || in_block (ipv4 240 0) 4 addr)))))))))

abbrev tests : ℕ → ℕ → Bool
tests a b =
    (a == 0)
    || ((a == 10)
        || ((a == 127)
            || (((a == 169) && (b == 254))
                || (((a == 172) && (leb 16 b && leb b 31))
                    || (((a == 192) && (b == 168))
                        || (((a == 192) && (b == 0))
                            || (((a == 198) && ((b == 18) || (b == 19)))
                                || (((a == 100) && (leb 64 b && leb b 127))
                                    || ((a == 224) || (leb 240 a))))))))))

private_octets-tests : (a b : ℕ) → is_some (private_octets a b) ≡ tests a b
unfolding private_octets
private_octets-tests a b = ground arith

module _ (addr : ℕ) (h : addr < 2 ^ 32) where
  abbrev first : ℕ
  first = addr / 16777216 % 256

  abbrev second : ℕ
  second = addr / 65536 % 256

  block_0_0_8 : in_block (ipv4 0 0) 8 addr ≡ (first == 0)
  block_0_0_8 = ground arith

  block_10_0_8 : in_block (ipv4 10 0) 8 addr ≡ (first == 10)
  block_10_0_8 = ground arith

  block_127_0_8 : in_block (ipv4 127 0) 8 addr ≡ (first == 127)
  block_127_0_8 = ground arith

  block_169_254_16 : in_block (ipv4 169 254) 16 addr ≡ ((first == 169) && (second == 254))
  block_169_254_16 = ground arith

  block_172_16_12 :
      in_block (ipv4 172 16) 12 addr ≡ ((first == 172) && (leb 16 second && leb second 31))
  block_172_16_12 = ground arith

  block_192_168_16 : in_block (ipv4 192 168) 16 addr ≡ ((first == 192) && (second == 168))
  block_192_168_16 = ground arith

  block_192_0_16 : in_block (ipv4 192 0) 16 addr ≡ ((first == 192) && (second == 0))
  block_192_0_16 = ground arith

  block_198_18_15 :
      in_block (ipv4 198 18) 15 addr ≡ ((first == 198) && ((second == 18) || (second == 19)))
  block_198_18_15 = ground arith

  block_100_64_10 :
      in_block (ipv4 100 64) 10 addr ≡ ((first == 100) && (leb 64 second && leb second 127))
  block_100_64_10 = ground arith

  block_224_0_8 : in_block (ipv4 224 0) 8 addr ≡ (first == 224)
  block_224_0_8 = ground arith

  block_240_0_4 : in_block (ipv4 240 0) 4 addr ≡ (leb 240 first)
  block_240_0_4 = ground arith

  octets : (octet addr 0 ≡ first) × (octet addr 1 ≡ second)
  unfolding octet
  octets = (omega arith, omega arith)

-- The test of octets refuses exactly the addresses of these blocks: 0.0.0.0/8, 10.0.0.0/8,
-- 127.0.0.0/8, 169.254.0.0/16, 172.16.0.0/12, 192.168.0.0/16, 192.0.0.0/16, 198.18.0.0/15,
-- 100.64.0.0/10, 224.0.0.0/8 and 240.0.0.0/4.
pub is_private_ipv4-blocks :
    (addr : ℕ) → addr < 2 ^ 32 → is_some (is_private_ipv4 addr) ≡ blocks addr
unfolding is_private_ipv4
is_private_ipv4-blocks addr h =
    rw
      (
        (octets addr h).0,
        (octets addr h).1,
        private_octets-tests (first addr h) (second addr h),
        block_0_0_8 addr h,
        block_10_0_8 addr h,
        block_127_0_8 addr h,
        block_169_254_16 addr h,
        block_172_16_12 addr h,
        block_192_168_16 addr h,
        block_192_0_16 addr h,
        block_198_18_15 addr h,
        block_100_64_10 addr h,
        block_224_0_8 addr h,
        block_240_0_4 addr h,
      )
      refl

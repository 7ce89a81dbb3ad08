-- ===== src/Hash.antt =====
-- cpp-backend/include/utils/sha256.h and cpp-backend/include/utils/sha1.h: the digests of the server.
-- Bytes and 32-bit words are natural numbers; each operation writes out its wrap-around.
pub mod Words
pub mod Sha256
pub mod Sha1
pub mod Padding
mod Tests

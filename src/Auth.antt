-- ===== src/Auth.antt =====
-- Who is let in: cpp-backend/src/utils/jwt_utils.cpp (the tokens),
-- cpp-backend/src/middleware/auth_middleware.cpp (each request). jwt-cpp, Crow, the settings and the answers of
-- the user table are parameters; the signed links are those of MediaSigner.antt, the digest of the
-- older tokens is Hash/Sha256.antt.
pub mod Numbers
pub mod Users
pub mod Jwt
pub mod Validate
pub mod Tokens
pub mod Uses
pub mod Issue
pub mod Passwords
pub mod Login
pub mod Gate
pub mod Admission
mod Tests

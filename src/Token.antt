-- ===== src/Token.antt =====
-- token: access and refresh tokens.
pub mod Payload
pub mod Paseto
pub mod Jwt
pub mod Maker

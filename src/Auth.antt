-- ===== src/Auth.antt =====
-- Authentication: the life of a refresh token.
pub mod RefreshTokens
pub mod Cleanup

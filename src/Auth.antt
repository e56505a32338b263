-- ===== src/Auth.antt =====
-- apps/oceanchat-auth/src: sessions and tokens.
pub mod Interleaving
pub mod Login
pub mod Sessions
pub mod Rotation
mod Tests

-- ===== src/Gateway.antt =====
-- apps/oceanchat-api-gateway/src: revocation of access tokens on every pod, the guard that asks for
-- it, and the controllers in front of the other services.
pub mod Revocation
pub mod Guard
pub mod Cookies
pub mod AuthController
pub mod UsersController
mod Tests

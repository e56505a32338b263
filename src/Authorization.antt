-- ===== src/Authorization.antt =====
-- libs/authorization/src: cached roles, permission checks and access to rooms.
pub mod Catalogue
pub mod Lru
pub mod RoleCache
pub mod Permissions
pub mod Rooms
mod Tests

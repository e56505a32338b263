-- ===== src/Flows.antt =====
-- What the services of apps do together.
pub mod RoleQueries
pub mod RemoteRoles
pub mod Revoked
mod Tests

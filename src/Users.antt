-- ===== src/Users.antt =====
-- apps/oceanchat-user/src: the accounts of the users.
pub mod Rules
pub mod Accounts
pub mod Queries
mod Tests

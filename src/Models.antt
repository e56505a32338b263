-- ===== src/Models.antt =====
-- libs/models/src: changes of the database on their way to the services that watch it.
pub mod Changes

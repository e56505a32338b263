-- ===== src/IdGenerator.antt =====
-- The distributed sequence generator: libs/id-generator/src and the repository
-- libs/models/src/repositories/sequence.repository.ts.
pub mod Decimal
pub mod Script
pub mod Service
pub mod Tests

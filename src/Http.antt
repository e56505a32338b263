-- ===== src/Http.antt =====
-- libs/cores/src/interceptors and libs/common-exceptions/src/filters: what stands between a request
-- and its handler, and between an error and the client.
pub mod Idempotency
pub mod Filter
mod Tests

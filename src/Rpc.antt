-- ===== src/Rpc.antt =====
-- Calls between the services over NATS: the answer of libs/common-exceptions/src/filters to a failed call,
-- and how the callers in apps read it.
pub mod Breaker
pub mod Client
pub mod Propagation
mod Tests

-- ===== src/Queue.antt =====
-- The two bounded task queues: libs/cores/src/utils/async-queue.ts and
-- libs/nats-jetstream-provisioner/src/nats-jetstream-publisher.ts.
pub mod Async
pub mod Publisher
pub mod Tests

-- ===== src/Nats.antt =====
-- libs/nats-jetstream-provisioner/src: the streams, the subscribers of JetStream events and, of
-- apps/oceanchat-user, the handler of logins.
pub mod Subscriber
pub mod Provisioner
pub mod LoginEvents
pub mod Decoding
mod Tests

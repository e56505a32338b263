-- ===== src/Monkey.antt =====
-- The Monkey wire protocol: libs/monkey/src.
pub mod Buffer
pub mod Header
pub mod Framer
pub mod Flags
pub mod Processor
pub mod Tests

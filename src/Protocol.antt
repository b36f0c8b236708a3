-- ===== src/Protocol.antt =====
-- aiokafka/protocol.
pub mod Reader
pub mod Integers
pub mod Varints
pub mod Types

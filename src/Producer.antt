-- ===== src/Producer.antt =====
-- aiokafka/producer.
pub mod Partitioner
pub mod TransactionManager
pub mod MessageBatch
pub mod MessageAccumulator
pub mod Sender

-- ===== src/Consumer.antt =====
-- aiokafka/consumer.
pub mod PartitionState
pub mod Subscription
pub mod SubscriptionState
pub mod PartitionRecords
pub mod FetchResult
pub mod FetchedBatch

-- ===== src/Record.antt =====
-- aiokafka/record.
pub mod Varint
pub mod Reading
pub mod Struct
pub mod Crc
pub mod DefaultRecords
pub mod ControlRecord
pub mod MemoryRecords

-- ===== src/Reader.antt =====
-- native/host/memory_reader.h and memory_reader.cpp: addresses in text, masked patterns and their
-- search, batches of reads.
pub mod Text
pub mod Pattern
pub mod Region
pub mod Batch
pub mod Scan

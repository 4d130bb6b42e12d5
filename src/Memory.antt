-- ===== src/Memory.antt =====
-- native/host/memory_*: addresses, the memory backend and guarded transactions.
pub mod Address
pub mod Backend
pub mod Transaction

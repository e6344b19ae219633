-- ===== src/LongMemory.antt =====
-- internal/longmemory: the memory of a person across sessions, by their consent.
pub mod Store
pub mod Manager
pub mod Context
pub mod Dispatcher
mod Tests

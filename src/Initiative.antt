-- ===== src/Initiative.antt =====
-- internal/initiativescheduler: whether a prepared initiative may be heard. The parts, by child.
pub mod Scheduler
pub mod Authority
pub mod Selection
mod Tests

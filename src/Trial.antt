-- ===== src/Trial.antt =====
-- internal/guesttrial: the bounded trial of a guest. The parts of the package, by child module.
pub mod Ledger
pub mod Memory
pub mod Owner
pub mod Service
mod Tests

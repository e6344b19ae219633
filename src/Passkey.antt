-- ===== src/Passkey.antt =====
-- internal/passkey: the passkeys of a person's account.
pub mod Store
pub mod Memory
pub mod Accounts
pub mod Lifecycle
pub mod Calls
pub mod Service
mod Tests

-- ===== src/Respondent.antt =====
-- internal/respondent: the verifier-progress controller, its stored posterior and the coach.
pub mod Floats
pub mod Contracts
pub mod Replies
pub mod Coach
pub mod Progress
pub mod Policy
pub mod Posterior
pub mod Utility
pub mod Stored
pub mod Plan
pub mod Guide
mod Tests

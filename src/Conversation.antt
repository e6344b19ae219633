-- ===== src/Conversation.antt =====
-- internal/conversation: the adapters between the audited planner and the respondent policy.
pub mod Projection
mod Tests

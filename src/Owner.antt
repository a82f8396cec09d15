-- ===== src/Owner.antt =====
-- What the owner decides and limits: approvals, sessions, the tokens of a brainstorm and the profile of
-- a run, in src/data/delivery-system.
pub mod Approval
pub mod Session
pub mod Brainstorm
pub mod Profile
pub mod Decisions
pub mod Lifecycle
pub mod Envelope
mod Scenarios

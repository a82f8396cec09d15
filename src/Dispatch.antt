-- ===== src/Dispatch.antt =====
-- The dispatch of a governed handoff to a worker, src/governed-core/dispatch.ts.
pub mod Modes
pub mod Handoff
pub mod Gates
pub mod Run
pub mod Required
pub mod Governed
pub mod Behind
pub mod Tokens
mod Scenarios

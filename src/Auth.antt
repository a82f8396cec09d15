-- ===== src/Auth.antt =====
-- The owner's sign-in sessions, src/data/delivery-system/authSessionRegistry.ts.
pub mod Registry
pub mod Store
pub mod Sessions
pub mod History
pub mod Absent
pub mod Alive
pub mod Lasting
pub mod Lifetime
pub mod Issued
mod Scenarios

-- ===== src/Supervisor.antt =====
-- The supervisor queue, src/data/delivery-system/supervisorQueue.ts.
pub mod Task
pub mod Cycle
pub mod Valid
pub mod Store
pub mod Enqueue
pub mod Run
pub mod Claim
pub mod Dispatch
pub mod Acyclic
pub mod Search
pub mod Hoare
pub mod Inversion
pub mod Update
pub mod Kept
pub mod KeptRun
pub mod KeptCalls
pub mod Invariants
pub mod Retries
pub mod Restart
pub mod Outcomes
pub mod Failing
pub mod Interleaving
mod Scenarios

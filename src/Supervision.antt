-- ===== src/Supervision.antt =====
-- Protective supervision, src/data/delivery-system/protectiveSupervision.ts.
pub mod Policy
pub mod Route
pub mod Repair
mod Scenarios

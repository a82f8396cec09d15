-- ===== src/Gateway.antt =====
-- The token gateway, src/data/delivery-system/tokenGateway.ts.
pub mod Types
pub mod Store
pub mod Reserve
pub mod Settle
pub mod Groups
pub mod Usage
pub mod Within
pub mod Saved
pub mod Stable
pub mod Preserved
pub mod Freed
pub mod Kept
pub mod Ended
pub mod GroupsKept
pub mod SlotsKept
pub mod Valid
pub mod Coherent
pub mod Calls
pub mod Full
pub mod Ledger
pub mod Charges
pub mod Charged
pub mod Retries
pub mod Refused
pub mod Twice
mod Scenarios

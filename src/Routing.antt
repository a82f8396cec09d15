-- ===== src/Routing.antt =====
-- Which provider and tier takes work over when a provider fails: subscriptionBudget.ts,
-- routingGuards.ts and fallbackChains.ts of src/data/delivery-system.
pub mod Budget
pub mod Tiers
pub mod Circuit
pub mod Fallback
pub mod Totals
pub mod Groups
pub mod Opens
pub mod Resolved
pub mod Pause
mod Scenarios

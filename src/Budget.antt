-- ===== src/Budget.antt =====
-- llm_usage.py and api/services/cost_guard.py: the daily calls of a tenant and the cap on them.
pub mod Usage
pub mod Guard
pub mod Rows
pub mod Calls
pub mod Effects
pub mod Cap
pub mod Admission
pub mod Failures

-- ===== src/Tests.antt =====
-- Concrete inputs at which the theorems apply, and runs of the definitions.
mod Registry
mod Delivery
mod Budget
mod Limits
mod Watchdog
mod Alignment
mod Outcome
mod Batch
mod Nodes
mod Router
mod Rules
mod Runner
mod SecretBox
mod Orchestration

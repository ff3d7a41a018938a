-- ===== src/Registry.antt =====
-- jobs.py: the SQLite table of analysis jobs behind the asynchronous API.
pub mod Rows
pub mod Housekeeping
pub mod Methods
pub mod Reads
pub mod FailStreak
pub mod Invariant
pub mod Operations
pub mod Preservation
pub mod Keeps
pub mod Lifecycle
pub mod Traces
pub mod Capacity
pub mod Visibility

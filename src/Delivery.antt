-- ===== src/Delivery.antt =====
-- job_library: the delivery stage of a library job, its timeline and its application snapshots.
pub mod Vocabulary
pub mod Transitions
pub mod Timeline
pub mod Writes
pub mod Edit
pub mod Cases
pub mod Rank
pub mod Spelling
pub mod Consistency
pub mod Bulk
pub mod Validation
pub mod Forward
pub mod Snapshots
pub mod Revive

-- ===== src/Lifecycle.antt =====
-- src/lifecycle.rs: the state machine of one order.
pub mod Types
pub mod Events
pub mod Ctx
pub mod Outcome
pub mod Venue
pub mod Domain
pub mod Redelivery
pub mod Fills
pub mod Finalize
pub mod Attribution
pub mod Response
pub mod Open
pub mod Backfill
pub mod Snapshot
pub mod Unknown
pub mod Cancel
pub mod Frozen
pub mod Submission
pub mod Live
pub mod Apply
pub mod Rebuild
pub mod Replay
pub mod Replayed
pub mod Invariant
pub mod Releasable
pub mod CrossChecks
pub mod Gates
pub mod Release

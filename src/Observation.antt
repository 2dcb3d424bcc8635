-- ===== src/Observation.antt =====
-- src/observation.rs: what the venue reports of an order's wire, and the registry of wires.
pub mod Types
pub mod Answers
pub mod Registry
pub mod Amend
pub mod Proofs
pub mod RestProofs
pub mod Binding
pub mod OrderPart
pub mod Holding
pub mod Fold
pub mod Keys
pub mod Proved
pub mod Resting
pub mod Paged
pub mod Frames
pub mod AmendSteps
pub mod Views
pub mod Restore
pub mod Members
pub mod Observe
pub mod Round
pub mod Apply
pub mod Targets
pub mod Marks
pub mod PageIds
pub mod Finished
pub mod Mirrored
pub mod Every
pub mod EveryPart
pub mod EveryLine
pub mod Unproved
pub mod Joined
pub mod OwnAction
pub mod OneCurrent
pub mod Live
pub mod Coherent
pub mod ProperWork
pub mod Ready
pub mod Agrees
pub mod RoundRows
pub mod RoundRebuilt

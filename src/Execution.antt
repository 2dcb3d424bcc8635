-- ===== src/Execution.antt =====
-- src/execution.rs: transactions of an order and of a market's inventory. A transaction is prepared
-- from the state that the caller read, journaled by the caller, and applied to the state, which is
-- compared with the one it was prepared from.
pub mod Types
pub mod Evidence
pub mod Staging
pub mod Inventory
pub mod Orders
pub mod Restore
pub mod NoRow
pub mod Commit
pub mod Adjudicate
pub mod CoreEvent
pub mod Outcomes
pub mod Batch
pub mod Debt
pub mod EvidenceMatch
pub mod Stale
pub mod Ledger
pub mod Ingest
pub mod Identity
pub mod Retained
pub mod Rows
pub mod Verdicts
pub mod Twice
pub mod Stages
pub mod Staged
pub mod Coherence
pub mod Folding
pub mod Trade
pub mod Mirror
pub mod Planned
pub mod Transact
pub mod Durable
pub mod Rebuilt

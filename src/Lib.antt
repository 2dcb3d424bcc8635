-- ===== src/Lib.antt =====
-- A model of the order core of omsrs (src/lifecycle.rs), of the transactions above it
-- (src/execution.rs) and of the observation of the venue (src/observation.rs), and proofs about them.
--
-- The program is a library of order management. Its core is a state machine for one order: the
-- shell hands in an event, and `apply_event` returns the next state, the effects that the shell has
-- to carry out, and the changed context of the order. Above it stand transactions: an event of an
-- order, or a batch of executions with the fills that the event carries, is prepared from the row and
-- the inventory that the shell read, journaled by the shell, and applied, where a target that has
-- changed since is refused. Rows and inventories are rebuilt from the journal. Beside them
-- stands a registry of wires, one for each order id of the venue: which orders have worked under it,
-- which executions it holds, and what is known to rest. A round of observation compares a row and a
-- page of the venue with the wire and its orders, and is applied to both. Nothing in it does I/O.
--
-- How the files follow the source, first src/lifecycle.rs:
--   Lifecycle/Types        identities, states, reasons and the rows that the shell injects
--   Lifecycle/Events       events, journal records and effects
--   Lifecycle/Ctx          `OrderCtx` and its methods, the reservation predicate
--   Lifecycle/Outcome      `TransitionOutcome`, accept, reject and halt
--   Lifecycle/Venue        the bind of the parent venue id, obligation evidence, authority records
--   Lifecycle/Domain       the domain of the create response, and its cross-checks
--   Lifecycle/Redelivery, Lifecycle/Fills       `account_fill_core`
--   Lifecycle/Finalize     `try_finalize_terminal` and `not_ready_for_terminal`
--   Lifecycle/Attribution, Lifecycle/Response   the create response and its page of fills
--   Lifecycle/Open         fills of an open order, and the target that waits for them
--   Lifecycle/Backfill, Lifecycle/Snapshot, Lifecycle/Unknown   backfill and reconcile routing
--   Lifecycle/Cancel       the seven cancel outcomes
--   Lifecycle/Frozen, Lifecycle/Submission, Lifecycle/Live, Lifecycle/Apply   `apply_event`
--   Lifecycle/Rebuild, Lifecycle/Replay         the fold of a journal, the fold of events
--   Lifecycle/Invariant    the invariant of the context, over the primitives, handlers and events
--   Lifecycle/Releasable   the conditions of a release, stated apart from the gates
--   Lifecycle/CrossChecks, Lifecycle/Gates, Lifecycle/Release   the theorems and their lemmas
--   Lifecycle/Replayed     the runs of events that a replay stands for
-- src/execution.rs:
--   Execution/Types        ledgers, evidence, entries, dispositions, journal lines, errors
--   Execution/Evidence, Execution/Staging      helpers, the match of evidence and fills, conflicts
--   Execution/Inventory    `MarketInventory` and its rebuild
--   Execution/Orders, Execution/Restore        `prepare_order_event`, its application, `rebuild_order`
--   Execution/NoRow        an execution without an order row
--   Execution/Adjudicate, Execution/CoreEvent, Execution/Outcomes, Execution/Batch
--                          `prepare_execution_batch`: verdicts, the core's event, outcomes, the whole
--   Execution/Commit       the application of an execution transaction
--   Execution/Transact, Execution/Durable, Execution/Rebuilt, Execution/Stale, Execution/Ledger,
--   Execution/Planned, Execution/Mirror, Execution/Verdicts, Execution/Stages, Execution/Staged,
--   Execution/Coherence, Execution/Folding, Execution/Trade, Execution/Ingest, Execution/Identity,
--   Execution/Twice, Execution/Retained, Execution/Rows, Execution/Debt, Execution/EvidenceMatch      the theorems and their lemmas
-- src/observation.rs:
--   Observation/Types, Observation/Answers      wires, members, amends, frames, the records of the
--                          journal, views, outcomes and errors, rounds
--   Observation/Registry   the registry, its searches and the small helpers on states
--   Observation/Amend      `prepare_amend_lineage` and `prepare_user_order_received`
--   Observation/Proofs, Observation/RestProofs  the proofs of the current order by a frame and by a
--                          REST page
--   Observation/Binding, Observation/OrderPart, Observation/Holding, Observation/Fold
--                          `WireRegistry::fold` and `rebuild`
--   Observation/Views      `route`, the working views and `readiness`
--   Observation/Restore    `rebuild_order_with_observations`
--   Observation/Members, Observation/Observe, Observation/Round      `ObservationRound`
--   Observation/Apply      `ObservationTransaction::apply`
--   Observation/Live       the registry and its journal as the caller of these works with them
--   Observation/Keys, Observation/Proved, Observation/Resting, Observation/Paged, Observation/Frames,
--   Observation/AmendSteps, Observation/Targets, Observation/Marks, Observation/PageIds,
--   Observation/Finished,
--   Observation/Mirrored, Observation/Every, Observation/EveryPart, Observation/EveryLine,
--   Observation/Unproved, Observation/Joined,
--   Observation/OwnAction, Observation/OneCurrent, Observation/Coherent, Observation/ProperWork,
--   Observation/Ready, Observation/Agrees, Observation/RoundRows, Observation/RoundRebuilt
--                          the theorems and their lemmas
-- and src/utils.rs:
--   Quantities             `update_quantity`
-- Scenarios holds the theorems at concrete inputs, and tests of a batch on a foreign row and of a fresh
-- round. BTreeMap, SeqMap and OrdMap are the ordered map of the standard library, by texts, by numbers
-- and by keys with an order, Equality the derived equality of whole states and contexts, Prelude the
-- shared names and machine words.
--
-- Conventions. A function on `&mut OrderCtx` returns its result and the new context. u64 and u128 are
-- natural numbers with the checked and saturating operations of the source; i64 timestamps are only
-- compared. A newtype over String is the text itself. The arguments that the source passes for one
-- fill are the fields of a `FillRecord`. The arms of `apply_event` stand with their states. Early
-- returns are branches. `JournalRecord` keeps the records of the transaction and observation layers
-- (execution.rs, observation.rs) without their payloads, which lifecycle.rs never reads, and
-- `Effect::Observation` without its outcome. In the model of execution.rs a journal is a list of
-- `JournalLine`s: a record of the order core, or a transaction with its payload; in that of
-- observation.rs it is a list of `WireLine`s, which are these and the records of the wires. A set is a map
-- to the unit, and a marker of a wire is its generation. The text of an
-- `EvidenceFillMismatch` is kept as the values that it prints. The sum of `net`, the cursors,
-- the positions in a journal and the counts of `readiness` are without bound, where the source has
-- i128, u64 and usize. The decimal text of a number is printed on fuel one above
-- the number, which is more than its digits.
--
-- Not modelled: the rest of utils.rs (positions over Decimal); order.rs with the compound orders and
-- strategies above it, an older order type of Decimal prices, JSON maps and wall-clock times that shares
-- no code with the order core; models.rs and yes_inventory.rs, positions and quotes over Decimal; the
-- brokers and their simulation on f64 prices, which the order core never calls; and persistence.rs,
-- which is I/O.
pub mod Prelude
pub mod BTreeMap
pub mod SeqMap
pub mod OrdMap
pub mod Equality
pub mod Lifecycle
pub mod Execution
pub mod Observation
pub mod Quantities
pub mod Scenarios

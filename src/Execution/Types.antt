-- ===== src/Execution/Types.antt =====
-- src/execution.rs, lines 16 to 309: ledgers, evidence, inventory entries, dispositions, the
-- journal records of a transaction, and errors. The journal holds the records of the order core
-- (`JournalRecord`) and, above them, those of the two transactions. The text that a mismatch of
-- evidence prints is kept as the values in it.
use mathlib.Core.List.{List-discrete}
use native.Mathlib.Decide.{ℕ_discrete}
use omsrs.Prelude.{ℕ, String, Option, List, Bool, ◌≡◌, refl, ◌⊎◌, inl, inr}
use omsrs.Prelude.Int.{ℤ}
use omsrs.BTreeMap.{BTreeMap}
use omsrs.Equality.{
  String-discrete, HaltReason-discrete, RejectReason-discrete, OrderState-discrete,
  OrderCtx-discrete, JournalRecord-discrete,
}
use omsrs.Lifecycle.Types.{
  ClientOrderId, VenueOrderId, FillId, Side, OrderState, HaltReason, RejectReason, FillPayload,
}
use omsrs.Lifecycle.Events.{JournalRecord, Effect}
use omsrs.Lifecycle.Ctx.{OrderCtx}

abbrev pub ExecutionScope : Type 0
ExecutionScope = String

pub record LedgerId : Type 0 where
  pub scope : ExecutionScope
  pub market : String

pub data ExecutionSource : Type 0 where
  ws_fill rest_fill create_response_backfill venue_seed : ExecutionSource

pub record ExecutionEvidence : Type 0 where
  pub scope : ExecutionScope
  pub market : String
  pub execution_id : FillId
  pub side : Side
  pub qty : ℕ
  pub price_cents : ℕ
  pub ts_ns : ℤ
  pub venue_order_id : Option VenueOrderId
  pub claimed_client_order_id : Option ClientOrderId
  pub fee_cents : Option ℕ
  pub source : ExecutionSource

pub record OrderCursor : Type 0 where
  pub seq : ℕ

-- `OrderRef` and the values behind the pointers of `OrderTarget`.
pub record OrderRow : Type 0 where
  pub ledger : LedgerId
  pub cursor : OrderCursor
  pub state : OrderState
  pub ctx : OrderCtx

pub data BatchOutcome : Type 0 where
  accept : BatchOutcome
  halt : HaltReason → BatchOutcome
  reject : RejectReason → BatchOutcome

pub data ConflictClass : Type 0 where
  core ownership fee : ConflictClass

pub data RefusalReason : Type 0 where
  duplicate_other_owner : (owner : ClientOrderId) → RefusalReason
  conflicting_execution : ConflictClass → RefusalReason
  fee_conflict : RefusalReason
  side_mismatch : (ctx_side evidence_side : Side) → RefusalReason
  row_foreign :
      (row_ledger : LedgerId) (row_ctx_market : String) (inventory_ledger : LedgerId)
      → RefusalReason
  in_batch_duplicate : RefusalReason

pub data InventoryProvenance : Type 0 where
  attributed recovered late_booked : InventoryProvenance
  not_attributed_by_order : BatchOutcome → InventoryProvenance
  refused : RefusalReason → InventoryProvenance
  no_row row_foreign : InventoryProvenance

pub record InventoryEntry : Type 0 where
  pub side : Side
  pub qty : ℕ
  pub price_cents : ℕ
  pub first_seen_ts_ns : ℤ
  pub venue_order_id : Option VenueOrderId
  pub claimed_client_order_id : Option ClientOrderId
  pub owner : Option ClientOrderId
  pub fee_cents : Option ℕ
  pub source : ExecutionSource
  pub provenance : InventoryProvenance

pub data ConflictWitness : Type 0 where
  entry : InventoryEntry → ConflictWitness
  order_applied : (client_order_id : ClientOrderId) (payload : FillPayload) → ConflictWitness
  both :
      (entry : InventoryEntry) (client_order_id : ClientOrderId) (payload : FillPayload)
      → ConflictWitness
  staged : InventoryEntry → ConflictWitness

pub record ConflictFact : Type 0 where
  pub execution_id : FillId
  pub class : ConflictClass
  pub witness : ConflictWitness
  pub evidence : ExecutionEvidence

pub record MarketInventory : Type 0 where
  pub ledger : LedgerId
  pub generation : ℕ
  pub entries : BTreeMap InventoryEntry
  pub conflicts : BTreeMap ConflictFact

pub data InventoryHealth : Type 0 where
  clean : InventoryHealth
  conflicted : (core ownership fee : ℕ) → InventoryHealth

pub record InventoryView : Type 0 where
  pub net : ℤ
  pub executions : ℕ
  pub health : InventoryHealth

pub data ChecksumDiagnostic : Type 0 where
  matched : ChecksumDiagnostic
  mismatch : (ledger observed : ℤ) → ChecksumDiagnostic

pub data IgnoreReason : Type 0 where
  zero_qty : IgnoreReason

pub data OrderDisposition : Type 0 where
  attributed enriched duplicate : OrderDisposition
  ignored : IgnoreReason → OrderDisposition
  late_booked : OrderDisposition
  not_attributed_by_order : BatchOutcome → OrderDisposition
  no_row : OrderDisposition
  refused : RefusalReason → OrderDisposition

pub data InventoryDisposition : Type 0 where
  ingested : InventoryProvenance → InventoryDisposition
  duplicate upgraded : InventoryDisposition
  conflict : ConflictClass → InventoryDisposition
  unchanged : InventoryDisposition

pub record ExecutionOutcome : Type 0 where
  pub evidence : ExecutionEvidence
  pub order : OrderDisposition
  pub inventory : InventoryDisposition
  pub entry_after : Option InventoryEntry
  pub conflict : Option ConflictFact

pub record OrderTxnRecord : Type 0 where
  pub ledger : LedgerId
  pub client_order_id : ClientOrderId
  pub seq : ℕ
  pub event : String
  pub outcome : BatchOutcome
  pub core_records : List JournalRecord
  pub state_after : OrderState
  pub ctx_after : OrderCtx

pub record ExecutionTxnRecord : Type 0 where
  pub ledger : LedgerId
  pub inventory_generation_before : ℕ
  pub executions : List ExecutionOutcome
  pub order : Option OrderTxnRecord

-- A line of the journal.
pub data JournalLine : Type 0 where
  core : JournalRecord → JournalLine
  order_txn : OrderTxnRecord → JournalLine
  execution_txn : ExecutionTxnRecord → JournalLine

pub record OrderTransaction : Type 0 where
  pub journal : Option JournalLine
  pub effects : List Effect
  pub rejected : Option RejectReason
  pub prepared_ledger : LedgerId
  pub expected_cursor : OrderCursor
  pub expected_state : OrderState
  pub expected_ctx : OrderCtx
  pub state_after : OrderState
  pub ctx_after : OrderCtx
  pub advance_cursor : Bool
  pub next_seq : ℕ

-- `prepared_order` holds the ledger, cursor, state and context of the row, which the source keeps
-- in four options that are set together; `order_after` the state and context of two such options.
pub record ExecutionTransaction : Type 0 where
  pub outcomes : List ExecutionOutcome
  pub journal : Option JournalLine
  pub effects : List Effect
  pub prepared_inventory_ledger : LedgerId
  pub expected_generation : ℕ
  pub prepared_order : Option OrderRow
  pub order_after : Option (OrderState × OrderCtx)
  pub advance_cursor : Bool
  pub next_seq : ℕ
  pub planned_entries : BTreeMap InventoryEntry
  pub planned_conflicts : BTreeMap ConflictFact

-- What the text of an `EvidenceFillMismatch` prints.
pub data MismatchDetail : Type 0 where
  length_mismatch : (event_fills evidences : ℕ) → MismatchDetail
  execution_id : (event evidence : FillId) → MismatchDetail
  qty price_cents : (event evidence : ℕ) → MismatchDetail
  venue_order_id : (event evidence : VenueOrderId) → MismatchDetail
  venue_order_id_missing : MismatchDetail
  fee_cents : (event evidence : ℕ) → MismatchDetail
  fee_cents_missing : MismatchDetail

pub data PrepareError : Type 0 where
  foreign_ledger : (inventory evidence : LedgerId) → PrepareError
  fills_must_use_execution_api : (event : String) (fills : ℕ) → PrepareError
  evidence_fill_mismatch : (position : ℕ) (detail : MismatchDetail) → PrepareError
  mixed_ledger_batch : PrepareError
  order_ref_inconsistent : (ledger_market ctx_market : String) → PrepareError

pub data ApplyMismatch : Type 0 where
  ledger_identity : ApplyMismatch
  inventory_generation : (expected found : ℕ) → ApplyMismatch
  order_cursor : (expected found : ℕ) → ApplyMismatch
  order_state_or_ctx : ApplyMismatch
  order_target : (expected found : Bool) → ApplyMismatch

pub data RebuildError : Type 0 where
  seq_gap : (client_order_id : ClientOrderId) (expected found : ℕ) → RebuildError
  divergent : (client_order_id : ClientOrderId) (seq : ℕ) → RebuildError
  duplicate_execution_record : FillId → RebuildError

-- `Result<A, E>`
pub data Result {ℓ} (E A : Type ℓ) : Type ℓ where
  ok : A → Result E A
  err : E → Result E A

pub Result-cases {ℓ} :
    {E A : Type ℓ} (r : Result E A) → ((a : A) × (r ≡ ok a)) ⊎ ((e : E) × (r ≡ err e))
Result-cases (ok a) = inl (a, refl)
Result-cases (err e) = inr (e, refl)

unfoldable pub LedgerId-discrete : Discrete LedgerId
LedgerId-discrete = hlevel String-discrete

unfoldable pub BatchOutcome-discrete : Discrete BatchOutcome
BatchOutcome-discrete = hlevel (HaltReason-discrete, RejectReason-discrete)

unfoldable pub OrderTxnRecord-discrete : Discrete OrderTxnRecord
OrderTxnRecord-discrete = hlevel (
  ℕ_discrete, String-discrete, LedgerId-discrete, BatchOutcome-discrete, List-discrete,
  JournalRecord-discrete, OrderState-discrete, OrderCtx-discrete,
)

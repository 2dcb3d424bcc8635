-- ===== src/Execution/Durable.antt =====
-- The journal of an order, written line by line as its transactions are applied, and the order
-- that is rebuilt from it after a crash.
use omsrs.Prelude.{
  ◌+◌, ◌≡◌, refl, sym, ◌⊎◌, inl, inr, Bool, true, false, Option, none, some, List, [], ◌∷◌, ◌++◌,
  Bool-cases,
}
use mathlib.Core.Path.{subst}
use omsrs.Lifecycle.Events.{OrderEvent}
use omsrs.Lifecycle.Apply.{apply_event}
use omsrs.Lifecycle.Invariant.{IsValid, Advances}
use omsrs.Lifecycle.Invariant.Events.{apply_event-Advances}
use omsrs.Execution.Types.{
  OrderRow, OrderTxnRecord, OrderTransaction, JournalLine, PrepareError, Result-cases, ok, err,
}
use omsrs.Execution.Orders.{
  prepare_order_event, apply_order_txn, transact, changed_txn, unchanged_txn, order_txn_record,
  transition_changed,
}
use omsrs.Lifecycle.Types.{RejectReason}
use omsrs.Lifecycle.Ctx.{OrderCtx}
use omsrs.Lifecycle.Outcome.{TransitionOutcome}
use omsrs.Execution.Transact.{written, prepare-ok, apply-of_Matches, prepared-Matches}
use omsrs.Execution.Restore.{restored_row}

-- What reaches the journal while the order is live: a step of the order itself, whose line may be
-- appended again by a retry, or a line of other work.
pub data Step : Type 0 where
  own : (event : OrderEvent) (again : Bool) → Step
  other : JournalLine → Step

-- The lines of a transaction, in the order of the append.
abbrev appended : OrderTransaction → Bool → List JournalLine
appended txn again = elim txn.journal [
  | none ↦ []
  | some line ↦ elim again [ true ↦ line ∷ line ∷ [] | false ↦ line ∷ [] ]
]

-- The event is prepared, its line appended, and the transaction applied; a refused event leaves
-- all as it is.
abbrev pub commit : OrderRow → Step → OrderRow × List JournalLine
commit row (other line) = (row, line ∷ [])
commit row (own event again) = elim (prepare_order_event row event) [
  | err _ ↦ (row, [])
  | ok txn ↦ elim (apply_order_txn txn row) [ err _ ↦ (row, []) | ok r ↦ (r, appended txn again) ]
]

unfoldable pub run : OrderRow → List Step → OrderRow × List JournalLine
run row [] = (row, [])
run row (s ∷ ss) =
    let (r, lines) = commit row s in let (last, rest) = run r ss in (last, lines ++ rest)

-- The record of a transaction that changed the row.
pub record Recorded (row r : OrderRow) (o : OrderTxnRecord) : Type 0 where
  pub ledger : o.ledger ≡ row.ledger
  pub owner : o.client_order_id ≡ row.ctx.client_order_id
  pub seq : o.seq ≡ row.cursor.seq + 1
  pub restored : r ≡ restored_row row.ledger o
  pub advances : Advances row.ctx r.ctx

abbrev Outcome : OrderRow → OrderTransaction → Type 0
Outcome row txn =
    ((txn.journal ≡ none) × (written txn row ≡ row))
    ⊎ ((o : OrderTxnRecord) × (txn.journal ≡ some (JournalLine.order_txn o))
        × Recorded row (written txn row) o)

changed-Outcome :
    (row : OrderRow) (ev : OrderEvent) (t : TransitionOutcome) (c : OrderCtx)
    → Advances row.ctx c
    → Outcome row (changed_txn row ev t c)
unfolding changed_txn order_txn_record
changed-Outcome row ev t c a = inr (
  order_txn_record row ev t c,
  refl,
  record { ledger = refl; owner = refl; seq = refl; restored = refl; advances = a },
)

unchanged-Outcome :
    (row : OrderRow) (reason : Option RejectReason) → Outcome row (unchanged_txn row reason)
unfolding unchanged_txn
unchanged-Outcome row reason = inl (refl, refl)

transact-Outcome :
    (row : OrderRow) (ev : OrderEvent) (o : TransitionOutcome × OrderCtx)
    → Advances row.ctx o.1
    → Outcome row (transact row ev o)
unfolding transact
transact-Outcome row ev (TransitionOutcome.rejected reason, c) a =
    unchanged-Outcome row (some reason)
transact-Outcome row ev (TransitionOutcome.accepted s es, c) a =
    elim (Bool-cases (transition_changed row (TransitionOutcome.accepted s es) c)) [
      | inl e ↦ rw e (changed-Outcome row ev (TransitionOutcome.accepted s es) c a)
      | inr e ↦ rw e (unchanged-Outcome row none)
    ]
transact-Outcome row ev (TransitionOutcome.halted s reason es, c) a =
    elim (Bool-cases (transition_changed row (TransitionOutcome.halted s reason es) c)) [
      | inl e ↦ rw e (changed-Outcome row ev (TransitionOutcome.halted s reason es) c a)
      | inr e ↦ rw e (unchanged-Outcome row none)
    ]

-- A step of the order writes nothing, or a line of its record once or twice.
abbrev pub Written : OrderRow → OrderRow × List JournalLine → Type 0
Written row (r, lines) =
    ((r ≡ row) × (lines ≡ []))
    ⊎ ((o : OrderTxnRecord) × Recorded row r o
        × ((lines ≡ JournalLine.order_txn o ∷ [])
            ⊎ (lines ≡ JournalLine.order_txn o ∷ JournalLine.order_txn o ∷ [])))

commit-of_refused :
    (row : OrderRow) (ev : OrderEvent) (again : Bool) (e : PrepareError)
    → prepare_order_event row ev ≡ err e
    → commit row (own ev again) ≡ (row, [])
commit-of_refused row ev again e h = rw (h, commit)

commit-of_prepared :
    (row : OrderRow) (ev : OrderEvent) (again : Bool) (txn : OrderTransaction)
    → prepare_order_event row ev ≡ ok txn
    → commit row (own ev again) ≡ (written txn row, appended txn again)
commit-of_prepared row ev again txn h =
    let applied = apply-of_Matches txn row (prepared-Matches row ev txn h) in
    rw (h, applied, commit)

appended-Written :
    (row : OrderRow) (txn : OrderTransaction) (again : Bool)
    → Outcome row txn
    → Written row (written txn row, appended txn again)
appended-Written row txn again (inl (silent, same_row)) = inl (same_row, rw (silent, appended))
appended-Written row txn true (inr (o, line, rec)) = inr (o, rec, inr (rw (line, appended)))
appended-Written row txn false (inr (o, line, rec)) = inr (o, rec, inl (rw (line, appended)))

pub commit-Written :
    (row : OrderRow) (ev : OrderEvent) (again : Bool)
    → IsValid row.ctx
    → Written row (commit row (own ev again))
commit-Written row ev again v = elim (Result-cases (prepare_order_event row ev)) [
  | inr (e, refused) ↦
      subst (Written row) (sym (commit-of_refused row ev again e refused)) (inl (refl, refl))
  | inl (txn, prepared) ↦ subst (Written row) (sym (commit-of_prepared row ev again txn prepared)) (
      appended-Written row txn again (
        subst (Outcome row) (sym (prepare-ok row ev txn prepared)) (
          transact-Outcome row ev (apply_event row.state row.ctx ev)
            (apply_event-Advances row.state row.ctx ev v))))
]

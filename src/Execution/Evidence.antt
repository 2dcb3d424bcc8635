-- ===== src/Execution/Evidence.antt =====
-- src/execution.rs, lines 311 to 471: the helpers of a transaction, and the match of the evidence
-- with the fills of an event, position by position.
use omsrs.Prelude.{
  ℕ, suc, ◌+◌, Option, none, some, List, [], ◌∷◌, ◌++◌, Bool, true, false, ◌&&◌, length, ltb, ◌==◌,
  if◌then◌else◌, same_text,
}
use omsrs.Lifecycle.Types.{FillRecord, BackfillOrderRecord, OrderState}
use omsrs.Lifecycle.Events.{OrderEvent, JournalRecord, Effect}
use omsrs.Lifecycle.Outcome.{TransitionOutcome}
use omsrs.Execution.Types.{
  LedgerId, ExecutionEvidence, BatchOutcome, MismatchDetail, PrepareError, Result, ok, err,
}

abbrev pub evidence_ledger : ExecutionEvidence → LedgerId
evidence_ledger e = record { scope = e.scope; market = e.market }

-- The records among the effects, and the other effects, each in their order.
unfoldable pub split_effects : List Effect → List JournalRecord × List Effect
split_effects [] = ([], [])
split_effects (e ∷ es) =
    let (records, non_journal) = split_effects es in
    elim e [
      | Effect.append_fsync r ↦ (r ∷ records, non_journal)
      | other ↦ (records, other ∷ non_journal)
    ]

abbrev pub outcome_from_transition : TransitionOutcome → BatchOutcome
outcome_from_transition (TransitionOutcome.accepted _ _) = BatchOutcome.accept
outcome_from_transition (TransitionOutcome.halted _ reason _) = BatchOutcome.halt reason
outcome_from_transition (TransitionOutcome.rejected reason) = BatchOutcome.reject reason

abbrev pub state_after_transition : TransitionOutcome → OrderState → OrderState
state_after_transition (TransitionOutcome.accepted new_state _) prior = new_state
state_after_transition (TransitionOutcome.halted new_state _ _) prior = new_state
state_after_transition (TransitionOutcome.rejected _) prior = prior

unfoldable pub matched_fills : List BackfillOrderRecord → List FillRecord
matched_fills [] = []
matched_fills (m ∷ ms) = m.fills ++ matched_fills ms

count_matched : List BackfillOrderRecord → ℕ
count_matched [] = 0
count_matched (m ∷ ms) = length m.fills + count_matched ms

unfoldable pub count_event_fills : OrderEvent → ℕ
unfolding count_matched
count_event_fills (OrderEvent.fill _) = 1
count_event_fills (OrderEvent.immediate_fill_backfill_result fills) = length fills
count_event_fills (OrderEvent.unknown_backfill_result _ matched) = count_matched matched
count_event_fills (OrderEvent.reconcile_result _ _ _ _ fills _) = length fills
count_event_fills _ = 0

abbrev pub is_fill_event : OrderEvent → Bool
is_fill_event (OrderEvent.fill _) = true
is_fill_event (OrderEvent.immediate_fill_backfill_result _) = true
is_fill_event (OrderEvent.unknown_backfill_result _ _) = true
is_fill_event (OrderEvent.reconcile_result _ _ _ _ _ _) = true
is_fill_event _ = false

unfoldable pub event_has_identified_fills : OrderEvent → Bool
event_has_identified_fills event = ltb 0 (count_event_fills event) && is_fill_event event

unfoldable pub flatten_event_fills : OrderEvent → List FillRecord
flatten_event_fills (OrderEvent.fill f) = f ∷ []
flatten_event_fills (OrderEvent.immediate_fill_backfill_result fills) = fills
flatten_event_fills (OrderEvent.unknown_backfill_result _ matched) = matched_fills matched
flatten_event_fills (OrderEvent.reconcile_result _ _ _ _ fills _) = fills
flatten_event_fills _ = []

-- An event that names a value which the evidence leaves out is a mismatch; the other way is not.
unfoldable pub option_mismatch {ℓ} :
    {A : Type ℓ}
    → (A → A → Bool)
    → (A → A → MismatchDetail)
    → MismatchDetail
    → Option A
    → Option A
    → Option MismatchDetail
option_mismatch same differs missing none b = none
option_mismatch same differs missing (some a) none = some missing
option_mismatch same differs missing (some a) (some b) =
    if same a b then none else some (differs a b)

-- The first field in which a fill and its evidence disagree.
unfoldable pub fill_mismatch : FillRecord → ExecutionEvidence → Option MismatchDetail
unfolding option_mismatch
fill_mismatch f e =
    if same_text f.fill_id e.execution_id
    then (if f.qty == e.qty
        then (if f.price_cents == e.price_cents
            then elim (option_mismatch same_text MismatchDetail.venue_order_id
                MismatchDetail.venue_order_id_missing f.venue_order_id e.venue_order_id) [
                  | some detail ↦ some detail
                  | none ↦
                      option_mismatch ◌==◌ MismatchDetail.fee_cents MismatchDetail.fee_cents_missing
                        f.fee_cents e.fee_cents
                ]
            else some (MismatchDetail.price_cents f.price_cents e.price_cents))
        else some (MismatchDetail.qty f.qty e.qty))
    else some (MismatchDetail.execution_id f.fill_id e.execution_id)

-- The loop over the pairs from position `i` on, which ends with the shorter list.
unfoldable pub check_from :
    ℕ → List FillRecord → List ExecutionEvidence → Result PrepareError (Unit {0})
check_from i [] es = ok tt
check_from i (f ∷ fs) [] = ok tt
check_from i (f ∷ fs) (e ∷ es) = elim (fill_mismatch f e) [
  | some detail ↦ err (PrepareError.evidence_fill_mismatch i detail)
  | none ↦ check_from (suc i) fs es
]

unfoldable pub check_evidence_matches_fills :
    List FillRecord → List ExecutionEvidence → Result PrepareError (Unit {0})
check_evidence_matches_fills fills evidences =
    if length fills == length evidences
    then check_from 0 fills evidences
    else err (
        PrepareError.evidence_fill_mismatch 0
          (MismatchDetail.length_mismatch (length fills) (length evidences)))

-- ===== src/Lifecycle/Outcome.antt =====
-- src/lifecycle.rs, lines 968 to 1017, 2357 to 2404 and 3954 to 4037: the outcome of an event, the
-- ways to accept, reject and halt, and the names that a rejection quotes. The names of states and
-- events are those of the source.
use omsrs.Prelude.{
  ◌≡◌, refl, ◌⊎◌, inl, inr, ℕ, suc, String, Option, none, some, List, [], ◌∷◌, ◌++◌, Bool, true,
  false, any, if◌then◌else◌,
}
use omsrs.Lifecycle.Types.{OrderState, HaltReason, RejectReason}
use omsrs.Lifecycle.Events.{OrderEvent, JournalRecord, Effect, is_resubmit, is_account_fill}

pub data TransitionOutcome : Type 0 where
  accepted : (new_state : OrderState) (effects : List Effect) → TransitionOutcome
  rejected : (reason : RejectReason) → TransitionOutcome
  halted :
      (new_state : OrderState) (reason : HaltReason) (effects : List Effect) → TransitionOutcome

pub TransitionOutcome-cases :
    (o : TransitionOutcome)
    → ((s : OrderState) × (es : List Effect) × (o ≡ TransitionOutcome.accepted s es))
      ⊎ (((s : OrderState) × (reason : HaltReason) × (es : List Effect) × (o
              ≡ TransitionOutcome.halted s reason es))
          ⊎ ((reason : RejectReason) × (o ≡ TransitionOutcome.rejected reason)))
TransitionOutcome-cases (TransitionOutcome.accepted s es) = inl (s, es, refl)
TransitionOutcome-cases (TransitionOutcome.halted s reason es) = inr (inl (s, reason, es, refl))
TransitionOutcome-cases (TransitionOutcome.rejected reason) = inr (inr (reason, refl))

abbrev pub effects : TransitionOutcome → List Effect
effects (TransitionOutcome.accepted s es) = es
effects (TransitionOutcome.rejected r) = []
effects (TransitionOutcome.halted s r es) = es

abbrev pub new_state : TransitionOutcome → Option OrderState
new_state (TransitionOutcome.accepted s es) = some s
new_state (TransitionOutcome.rejected r) = none
new_state (TransitionOutcome.halted s r es) = some s

abbrev pub is_reject : TransitionOutcome → Bool
is_reject (TransitionOutcome.rejected r) = true
is_reject _ = false

abbrev pub is_halt : TransitionOutcome → Bool
is_halt (TransitionOutcome.halted s r es) = true
is_halt _ = false

unfoldable pub has_resubmit_effect : TransitionOutcome → Bool
has_resubmit_effect o = any is_resubmit (effects o)

count_account_fills : List Effect → ℕ
count_account_fills [] = 0
count_account_fills (e ∷ es) =
    let rest = count_account_fills es in if is_account_fill e then suc rest else rest

unfoldable pub account_fill_count : TransitionOutcome → ℕ
unfolding count_account_fills
account_fill_count o = count_account_fills (effects o)

abbrev pub accept : OrderState → List Effect → TransitionOutcome
accept = TransitionOutcome.accepted

unfoldable pub prepend_effects : List Effect → TransitionOutcome → TransitionOutcome
prepend_effects prefix (TransitionOutcome.accepted s es) =
    TransitionOutcome.accepted s (prefix ++ es)
prepend_effects prefix (TransitionOutcome.halted s r es) =
    TransitionOutcome.halted s r (prefix ++ es)
prepend_effects prefix (TransitionOutcome.rejected r) = TransitionOutcome.rejected r

unfoldable pub halt_with_reason : HaltReason → List Effect → TransitionOutcome
halt_with_reason reason prior =
    TransitionOutcome.halted (OrderState.halted reason) reason
      (prior ++ Effect.append_fsync (JournalRecord.halted reason) ∷ Effect.halt_new_exposure ∷ [])

-- The records that already journal a halt.
abbrev pub is_halt_record : Effect → Bool
is_halt_record (Effect.append_fsync (JournalRecord.halted _)) = true
is_halt_record (Effect.append_fsync (JournalRecord.immediate_fill_unresolved_cid _)) = true
is_halt_record (Effect.append_fsync (JournalRecord.unknown_no_match_cid _)) = true
is_halt_record _ = false

abbrev pub is_exposure_halt : Effect → Bool
is_exposure_halt Effect.halt_new_exposure = true
is_exposure_halt _ = false

unfoldable pub halt_with_reason_state : OrderState → HaltReason → List Effect → TransitionOutcome
halt_with_reason_state state reason prior =
    let journaled =
      if any is_halt_record prior
      then prior
      else prior ++ Effect.append_fsync (JournalRecord.halted reason) ∷ [] in
    TransitionOutcome.halted state reason (
      if any is_exposure_halt journaled
      then journaled
      else journaled ++ Effect.halt_new_exposure ∷ [])

unfoldable pub state_name : OrderState → String
state_name OrderState.new = "New"
state_name OrderState.submit_prepared = "SubmitPrepared"
state_name (OrderState.submit_started _) = "SubmitStarted"
state_name OrderState.submit_unknown = "SubmitUnknown"
state_name (OrderState.accepted _) = "Accepted"
state_name (OrderState.partial _ _ _) = "Partial"
state_name OrderState.filled = "Filled"
state_name (OrderState.cancel_pending _ _ _ _ _ _ _) = "CancelPending"
state_name (OrderState.reconcile_pending _ _ _ _ _ _ _) = "ReconcilePending"
state_name OrderState.canceled = "Canceled"
state_name OrderState.terminal = "Terminal"
state_name (OrderState.immediate_fill_unattributed _ _ _ _ _) = "ImmediateFillUnattributed"
state_name OrderState.immediate_fill_unresolved = "ImmediateFillUnresolved"
state_name OrderState.unknown_no_match = "UnknownNoMatch"
state_name (OrderState.halted _) = "Halted"
state_name (OrderState.submission_closed _) = "SubmissionClosed"

unfoldable pub event_name : OrderEvent → String
event_name OrderEvent.prepare_submit = "PrepareSubmit"
event_name (OrderEvent.start_submit _) = "StartSubmit"
event_name (OrderEvent.submit_response _ _ _ _ _ _) = "SubmitResponse"
event_name OrderEvent.submit_timeout = "SubmitTimeout"
event_name (OrderEvent.user_order_resting_claim _ _) = "UserOrderRestingClaim"
event_name (OrderEvent.user_order_terminal_claim _ _ _) = "UserOrderTerminalClaim"
event_name (OrderEvent.fill _) = "Fill"
event_name OrderEvent.cancel_requested = "CancelRequested"
event_name (OrderEvent.cancel_outcome _) = "CancelOutcome"
event_name (OrderEvent.unknown_backfill_result _ _) = "UnknownBackfillResult"
event_name (OrderEvent.immediate_fill_backfill_result _) = "ImmediateFillBackfillResult"
event_name OrderEvent.backfill_deadline_elapsed = "BackfillDeadlineElapsed"
event_name (OrderEvent.request_resubmit _) = "RequestResubmit"
event_name (OrderEvent.reconcile_result _ _ _ _ _ _) = "ReconcileResult"
event_name (OrderEvent.decrease_observed _ _) = "DecreaseObserved"
event_name OrderEvent.amend_observed = "AmendObserved"
event_name (OrderEvent.close_submission _) = "CloseSubmission"

unfoldable pub reject_illegal : OrderState → OrderEvent → TransitionOutcome
reject_illegal state event =
    TransitionOutcome.rejected
      (RejectReason.illegal_transition (state_name state) (event_name event))

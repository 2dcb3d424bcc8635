-- ===== src/Lifecycle/Apply.antt =====
-- src/lifecycle.rs, lines 1019 to 1582: `apply_event`, whose arms stand with their states.
use omsrs.Prelude.{[]}
use omsrs.Lifecycle.Types.{OrderState, SubmissionCloseReason}
use omsrs.Lifecycle.Events.{OrderEvent}
use omsrs.Lifecycle.Ctx.{OrderCtx}
use omsrs.Lifecycle.Outcome.{accept}
use omsrs.Lifecycle.Attribution.{Handled}
use omsrs.Lifecycle.Frozen.{try_close_submission, restart_safe_handle}
use omsrs.Lifecycle.Submission.{apply_new, apply_prepared, apply_started, apply_unknown}
use omsrs.Lifecycle.Live.{
  apply_live, apply_cancel_pending, apply_reconcile_pending, apply_unattributed,
}

-- A closed submission keeps its first reason.
unfoldable pub apply_closed : SubmissionCloseReason → OrderCtx → OrderEvent → Handled
apply_closed committed ctx (OrderEvent.close_submission _) =
    (accept (OrderState.submission_closed committed) [], ctx)
apply_closed committed ctx event =
    restart_safe_handle (OrderState.submission_closed committed) ctx event

-- `UnknownNoMatch` admits one closure.
unfoldable pub apply_no_match : OrderCtx → OrderEvent → Handled
apply_no_match ctx (OrderEvent.close_submission SubmissionCloseReason.exhaustive_absent) =
    (try_close_submission ctx SubmissionCloseReason.exhaustive_absent, ctx)
apply_no_match ctx event = restart_safe_handle OrderState.unknown_no_match ctx event

unfoldable pub apply_event : OrderState → OrderCtx → OrderEvent → Handled
unfolding apply_closed apply_no_match
apply_event (OrderState.submission_closed committed) ctx event = apply_closed committed ctx event
apply_event OrderState.unknown_no_match ctx event = apply_no_match ctx event
apply_event OrderState.new ctx event = apply_new ctx event
apply_event OrderState.submit_prepared ctx event = apply_prepared ctx event
apply_event (OrderState.submit_started attempt_id) ctx event =
    apply_started (OrderState.submit_started attempt_id) ctx event
apply_event OrderState.submit_unknown ctx event = apply_unknown ctx event
apply_event (OrderState.accepted v) ctx event = apply_live (OrderState.accepted v) v ctx event
apply_event (OrderState.partial v filled remaining) ctx event =
    apply_live (OrderState.partial v filled remaining) v ctx event
apply_event (OrderState.cancel_pending v filled remaining count avg fee target) ctx event =
    apply_cancel_pending ctx v filled remaining count avg fee target event
apply_event (OrderState.reconcile_pending v filled remaining target count avg fee) ctx event =
    apply_reconcile_pending (OrderState.reconcile_pending v filled remaining target count avg fee) v
      ctx event
apply_event (OrderState.immediate_fill_unattributed v count remaining avg fee) ctx event =
    apply_unattributed (OrderState.immediate_fill_unattributed v count remaining avg fee) v count
      avg fee ctx event
apply_event OrderState.filled ctx event = restart_safe_handle OrderState.filled ctx event
apply_event OrderState.canceled ctx event = restart_safe_handle OrderState.canceled ctx event
apply_event OrderState.terminal ctx event = restart_safe_handle OrderState.terminal ctx event
apply_event OrderState.immediate_fill_unresolved ctx event =
    restart_safe_handle OrderState.immediate_fill_unresolved ctx event
apply_event (OrderState.halted reason) ctx event =
    restart_safe_handle (OrderState.halted reason) ctx event

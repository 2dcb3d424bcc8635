-- ===== src/Lifecycle/Invariant/Events.antt =====
-- Every event, in every state, advances a valid context.
use omsrs.Prelude.{ℕ, Option, List, [], ◌∷◌, Bool, false, inl, inr, arith}
use omsrs.Lifecycle.Types.{
  VenueOrderId, OrderState, SubmissionCloseReason, FillRecord, BackfillOrderStatus, ReconcileTarget,
  ReconcileTerminal,
}
use omsrs.Lifecycle.Events.{OrderEvent}
use omsrs.Lifecycle.Ctx.{OrderCtx, note_venue_remaining}
use omsrs.Lifecycle.Venue.{Resolved-cases, bind_venue_id, resolve_reconcile_venue}
use omsrs.Lifecycle.Finalize.{ProposedTerminal}
use omsrs.Lifecycle.Snapshot.{Snapshot, route_from_backfill_status}
use omsrs.Lifecycle.Frozen.{late_fill, restart_safe_handle}
use omsrs.Lifecycle.Submission.{
  apply_new, apply_prepared, apply_resting_claim, apply_started, apply_unknown,
}
use omsrs.Lifecycle.Live.{
  apply_terminal_claim, request_cancel, apply_live, apply_reconcile_result, apply_cancel_pending,
  apply_reconcile_pending, apply_unattributed,
}
use omsrs.Lifecycle.Apply.{apply_closed, apply_no_match, apply_event}
use omsrs.Lifecycle.Invariant.{IsValid, Advances, Advances-IsValid, Advances-refl, Advances-trans}
use omsrs.Lifecycle.Invariant.Primitives.{
  note_venue_remaining-Advances, bind-Advances, resolve-Advances,
  authority_invalidate_effects-Advances,
}
use omsrs.Lifecycle.Invariant.Accounting.{try_account_fill-Advances}
use omsrs.Lifecycle.Invariant.Handlers.{
  latch_and_finalize-Advances, apply_fill_while_open-Advances, apply_fill_dedup_only-Advances,
}
use omsrs.Lifecycle.Invariant.Responses.{apply_submit_response-Advances, apply_backfill-Advances}
use omsrs.Lifecycle.Invariant.Snapshots.{route_from-Advances, unknown-Advances, cancel-Advances}

late_fill-Advances :
    (s : OrderState) (c : OrderCtx) (f : FillRecord) → IsValid c → Advances c (late_fill s c f).1
unfolding late_fill
late_fill-Advances s c f h = ground (arith, try_account_fill-Advances c f h)

frozen-Advances :
    (s : OrderState) (c : OrderCtx) (e : OrderEvent)
    → IsValid c
    → Advances c (restart_safe_handle s c e).1
unfolding restart_safe_handle
frozen-Advances s c (OrderEvent.fill f) h = late_fill-Advances s c f h
frozen-Advances s c (OrderEvent.decrease_observed _ _) h = Advances-refl h
frozen-Advances s c OrderEvent.amend_observed h = Advances-refl h
frozen-Advances s c _ h = Advances-refl h

new-Advances : (c : OrderCtx) (e : OrderEvent) → IsValid c → Advances c (apply_new c e).1
unfolding apply_new
new-Advances c OrderEvent.prepare_submit h = Advances-refl h
new-Advances c _ h = Advances-refl h

prepared-Advances : (c : OrderCtx) (e : OrderEvent) → IsValid c → Advances c (apply_prepared c e).1
unfolding apply_prepared
prepared-Advances c OrderEvent.prepare_submit h = Advances-refl h
prepared-Advances c _ h = Advances-refl h

started-Advances :
    (s : OrderState) (c : OrderCtx) (e : OrderEvent)
    → IsValid c
    → Advances c (apply_started s c e).1
unfolding apply_started
started-Advances s c (OrderEvent.submit_response v n r avg fee b) h =
    apply_submit_response-Advances c v n r avg fee b h
started-Advances s c (OrderEvent.fill f) h = apply_fill_while_open-Advances s c f h
started-Advances s c _ h = Advances-refl h

resting-Advances :
    (c : OrderCtx) (v : VenueOrderId) (r : ℕ) → IsValid c → Advances c (apply_resting_claim c v r).1
unfolding apply_resting_claim
resting-Advances c v r h =
    let d : OrderCtx = (bind_venue_id c v).1 in
    let a : Advances c d = bind-Advances c v h in
    ground (arith, a, Advances-trans a (note_venue_remaining-Advances d r (Advances-IsValid a)))

unknown_state-Advances :
    (c : OrderCtx) (e : OrderEvent) → IsValid c → Advances c (apply_unknown c e).1
unfolding apply_unknown
unknown_state-Advances c (OrderEvent.unknown_backfill_result b rs) h = unknown-Advances c b rs h
unknown_state-Advances c (OrderEvent.user_order_resting_claim v r) h = resting-Advances c v r h
unknown_state-Advances c (OrderEvent.fill f) h =
    apply_fill_dedup_only-Advances c f OrderState.submit_unknown h
unknown_state-Advances c _ h = Advances-refl h

claim-Advances :
    (s : OrderState) (c : OrderCtx) (v : VenueOrderId) (n : ℕ) (b : Bool)
    → IsValid c
    → Advances c (apply_terminal_claim s c v n b).1
unfolding apply_terminal_claim
claim-Advances s c v n b h =
    let d : OrderCtx = note_venue_remaining c 0 in
    let a : Advances c d = note_venue_remaining-Advances c 0 h in
    ground (
      arith,
      Advances-trans a (
          latch_and_finalize-Advances d (ProposedTerminal.filled n 0) v [] ReconcileTerminal.filled
            (Advances-IsValid a)),
      Advances-trans a (
          latch_and_finalize-Advances d ProposedTerminal.canceled v [] ReconcileTerminal.canceled
            (Advances-IsValid a)),
    )

request_cancel-Advances :
    (c : OrderCtx) (v : VenueOrderId) (n avg fee : Option ℕ)
    → IsValid c
    → Advances c (request_cancel c v n avg fee).1
unfolding request_cancel
request_cancel-Advances c v n avg fee h = authority_invalidate_effects-Advances c h

live-Advances :
    (s : OrderState) (v : VenueOrderId) (c : OrderCtx) (e : OrderEvent)
    → IsValid c
    → Advances c (apply_live s v c e).1
unfolding apply_live
live-Advances s v c (OrderEvent.user_order_terminal_claim w n b) h = claim-Advances s c w n b h
live-Advances s v c (OrderEvent.fill f) h = apply_fill_while_open-Advances s c f h
live-Advances s v c OrderEvent.cancel_requested h = request_cancel-Advances c v _ _ _ h
live-Advances s v c _ h = Advances-refl h

reconcile-Advances :
    (c : OrderCtx) (v : VenueOrderId) (st : BackfillOrderStatus) (w : Option VenueOrderId) (n r : ℕ)
    (fs : List FillRecord) (b : Bool)
    → IsValid c
    → Advances c (apply_reconcile_result c v st w n r fs b).1
unfolding apply_reconcile_result
reconcile-Advances c v st w n r fs b h =
    let d : OrderCtx = (resolve_reconcile_venue c v w).1 in
    let a : Advances c d = resolve-Advances c v w h in
    let routed : (s : Snapshot) → Advances c (route_from_backfill_status d s fs b false).1 =
      λ s. Advances-trans a (route_from-Advances d s fs b false (Advances-IsValid a)) in
    elim (Resolved-cases (resolve_reconcile_venue c v w).0) [
      | inr (reason, jr, e) ↦ rw (e, apply_reconcile_result) a
      | inl (id, jr, e) ↦ rw (e, apply_reconcile_result) (routed _)
    ]

cancel_pending-Advances :
    (c : OrderCtx) (v : VenueOrderId) (filled r : ℕ) (n avg fee : Option ℕ)
    (t : Option ReconcileTarget) (e : OrderEvent)
    → IsValid c
    → Advances c (apply_cancel_pending c v filled r n avg fee t e).1
unfolding apply_cancel_pending
cancel_pending-Advances c v filled r n avg fee t (OrderEvent.user_order_terminal_claim w m b) h =
    claim-Advances _ c w m b h
cancel_pending-Advances c v filled r n avg fee t (OrderEvent.cancel_outcome o) h =
    cancel-Advances c v filled r n avg fee t o h
cancel_pending-Advances c v filled r n avg fee t (OrderEvent.fill f) h =
    apply_fill_while_open-Advances _ c f h
cancel_pending-Advances c v filled r n avg fee t (OrderEvent.reconcile_result st w m k fs b) h =
    reconcile-Advances c v st w m k fs b h
cancel_pending-Advances c v filled r n avg fee t _ h = Advances-refl h

reconcile_pending-Advances :
    (s : OrderState) (v : VenueOrderId) (c : OrderCtx) (e : OrderEvent)
    → IsValid c
    → Advances c (apply_reconcile_pending s v c e).1
unfolding apply_reconcile_pending
reconcile_pending-Advances s v c (OrderEvent.user_order_terminal_claim w m b) h =
    claim-Advances s c w m b h
reconcile_pending-Advances s v c (OrderEvent.fill f) h = apply_fill_while_open-Advances s c f h
reconcile_pending-Advances s v c (OrderEvent.reconcile_result st w m k fs b) h =
    reconcile-Advances c v st w m k fs b h
reconcile_pending-Advances s v c _ h = Advances-refl h

unattributed-Advances :
    (s : OrderState) (v : VenueOrderId) (n : ℕ) (avg fee : Option ℕ) (c : OrderCtx) (e : OrderEvent)
    → IsValid c
    → Advances c (apply_unattributed s v n avg fee c e).1
unfolding apply_unattributed
unattributed-Advances s v n avg fee c (OrderEvent.immediate_fill_backfill_result fs) h =
    apply_backfill-Advances c s fs h
unattributed-Advances s v n avg fee c (OrderEvent.fill f) h = apply_backfill-Advances c s (f ∷ []) h
unattributed-Advances s v n avg fee c OrderEvent.cancel_requested h =
    request_cancel-Advances c v _ _ _ h
unattributed-Advances s v n avg fee c _ h = Advances-refl h

closed-Advances :
    (r : SubmissionCloseReason) (c : OrderCtx) (e : OrderEvent)
    → IsValid c
    → Advances c (apply_closed r c e).1
unfolding apply_closed
closed-Advances r c (OrderEvent.close_submission _) h = Advances-refl h
closed-Advances r c e h = frozen-Advances (OrderState.submission_closed r) c _ h

no_match-Advances : (c : OrderCtx) (e : OrderEvent) → IsValid c → Advances c (apply_no_match c e).1
unfolding apply_no_match
no_match-Advances c (OrderEvent.close_submission SubmissionCloseReason.exhaustive_absent) h =
    Advances-refl h
no_match-Advances c e h = frozen-Advances OrderState.unknown_no_match c _ h

-- From a valid context, apply_event on any state and any event, accepted, rejected or halted,
-- leaves a context in which the identity, price, side and quantity of the order stay, a bound
-- parent venue id stays bound, the attributed quantity, the obligation and the authority epoch do
-- not fall, and the attributed quantity is still the sum of the booked fills, at most the
-- obligation, which is at most the order quantity.
pub apply_event-Advances :
    (s : OrderState) (c : OrderCtx) (e : OrderEvent) → IsValid c → Advances c (apply_event s c e).1
unfolding apply_event
apply_event-Advances (OrderState.submission_closed r) c e h = closed-Advances r c e h
apply_event-Advances OrderState.unknown_no_match c e h = no_match-Advances c e h
apply_event-Advances OrderState.new c e h = new-Advances c e h
apply_event-Advances OrderState.submit_prepared c e h = prepared-Advances c e h
apply_event-Advances (OrderState.submit_started a) c e h = started-Advances _ c e h
apply_event-Advances OrderState.submit_unknown c e h = unknown_state-Advances c e h
apply_event-Advances (OrderState.accepted v) c e h = live-Advances _ v c e h
apply_event-Advances (OrderState.partial v _ _) c e h = live-Advances _ v c e h
apply_event-Advances (OrderState.cancel_pending v filled r n avg fee t) c e h =
    cancel_pending-Advances c v filled r n avg fee t e h
apply_event-Advances (OrderState.reconcile_pending v _ _ _ _ _ _) c e h =
    reconcile_pending-Advances _ v c e h
apply_event-Advances (OrderState.immediate_fill_unattributed v n _ avg fee) c e h =
    unattributed-Advances _ v n avg fee c e h
apply_event-Advances OrderState.filled c e h = frozen-Advances _ c e h
apply_event-Advances OrderState.canceled c e h = frozen-Advances _ c e h
apply_event-Advances OrderState.terminal c e h = frozen-Advances _ c e h
apply_event-Advances OrderState.immediate_fill_unresolved c e h = frozen-Advances _ c e h
apply_event-Advances (OrderState.halted _) c e h = frozen-Advances _ c e h

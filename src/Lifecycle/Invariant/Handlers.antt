-- ===== src/Lifecycle/Invariant/Handlers.antt =====
-- The handlers of the events advance a valid context.
use omsrs.Prelude.{
  ℕ, Option, none, some, List, ◌++◌, Bool, true, false, inl, inr, arith, Option-cases,
}
use omsrs.Lifecycle.Types.{VenueOrderId, OrderState, ReconcileTerminal, ReconcileTarget, FillRecord}
use omsrs.Lifecycle.Events.{Effect}
use omsrs.Lifecycle.Ctx.{OrderCtx, Result-cases, remaining_qty_checked}
use omsrs.Lifecycle.Venue.{note_fill_evidence, push_journal}
use omsrs.Lifecycle.Redelivery.{AccountAttempt-cases}
use omsrs.Lifecycle.Fills.{try_account_fill}
use omsrs.Lifecycle.Finalize.{ProposedTerminal}
use omsrs.Lifecycle.Attribution.{
  latch_and_finalize, route_live_or_filled, keep_response_averages, resolve_unattributed,
}
use omsrs.Lifecycle.Response.{zero_fill_response}
use omsrs.Lifecycle.Open.{
  latch_if_covered, settle_target, after_fill_cancel_or_reconcile, after_enrichment, after_new_fill,
  apply_fill_while_open, apply_fill_dedup_only,
}
use omsrs.Lifecycle.Invariant.{IsValid, Advances, Advances-IsValid, Advances-refl, Advances-trans}
use omsrs.Lifecycle.Invariant.Primitives.{
  note_fill_evidence-Advances, note_authority_complete-Advances,
}
use omsrs.Lifecycle.Invariant.Accounting.{try_account_fill-Advances}

pub latch_and_finalize-Advances :
    (c : OrderCtx) (p : ProposedTerminal) (v : VenueOrderId) (es : List Effect)
    (t : ReconcileTerminal)
    → IsValid c
    → Advances c (latch_and_finalize c p v es t).1
unfolding latch_and_finalize
latch_and_finalize-Advances c p v es t h = note_authority_complete-Advances c true h

pub route-Advances :
    (c : OrderCtx) (v : VenueOrderId) (es : List Effect)
    → IsValid c
    → Advances c (route_live_or_filled c v es).1
unfolding route_live_or_filled
route-Advances c v es h = ground (
  arith,
  latch_and_finalize-Advances c (ProposedTerminal.filled c.attributed_fill_qty 0) v es
      ReconcileTerminal.filled h,
)

settle-Advances :
    (c : OrderCtx) (v : VenueOrderId) (t : ReconcileTarget) (r : ℕ) (es : List Effect)
    → IsValid c
    → Advances c (settle_target c v t r es).1
unfolding settle_target latch_if_covered
settle-Advances c v t r es h = ground (arith, note_authority_complete-Advances c true h)

after_fill-Advances :
    (c : OrderCtx) (v : VenueOrderId) (t : Option ReconcileTarget) (es : List Effect) (q : ℕ)
    (b : Bool)
    → IsValid c
    → Advances c (after_fill_cancel_or_reconcile c v t es q b).1
unfolding after_fill_cancel_or_reconcile
after_fill-Advances c v none es q b h = ground (
  arith,
  latch_and_finalize-Advances c (ProposedTerminal.filled c.attributed_fill_qty 0) v es
      ReconcileTerminal.filled h,
)
after_fill-Advances c v (some t) es q b h =
    let d : OrderCtx = (note_fill_evidence c t.venue_filled_qty).1 in
    let a : Advances c d = note_fill_evidence-Advances c t.venue_filled_qty h in
    elim (Option-cases (remaining_qty_checked c)) [
      | inl e ↦ rw (e, after_fill_cancel_or_reconcile) (Advances-refl h)
      | inr (remaining, e) ↦ elim (Result-cases (note_fill_evidence c t.venue_filled_qty).0) [
        | inl (jr, e') ↦
            rw (e, e', after_fill_cancel_or_reconcile)
              (Advances-trans a
                (settle-Advances d v t remaining (push_journal es jr) (Advances-IsValid a)))
        | inr (reason, e') ↦ rw (e, e', after_fill_cancel_or_reconcile) a
      ]
    ]

after_enrichment-Advances :
    (s : OrderState) (c : OrderCtx) (es : List Effect)
    → IsValid c
    → Advances c (after_enrichment s c es).1
unfolding after_enrichment
after_enrichment-Advances (OrderState.cancel_pending v _ _ _ _ _ t) c es h =
    after_fill-Advances c v t es 0 true h
after_enrichment-Advances (OrderState.reconcile_pending v _ _ t _ _ _) c es h =
    after_fill-Advances c v (some t) es 0 true h
after_enrichment-Advances _ c es h = Advances-refl h

after_new_fill-Advances :
    (s : OrderState) (c : OrderCtx) (es : List Effect) (q : ℕ)
    → IsValid c
    → Advances c (after_new_fill s c es q).1
unfolding after_new_fill
after_new_fill-Advances (OrderState.submit_started a) c es q h = Advances-refl h
after_new_fill-Advances (OrderState.cancel_pending v _ _ _ _ _ t) c es q h =
    after_fill-Advances c v t es q false h
after_new_fill-Advances (OrderState.reconcile_pending v _ _ t _ _ _) c es q h =
    after_fill-Advances c v (some t) es q false h
after_new_fill-Advances _ c es q h = route-Advances c _ es h

-- From a valid context and in any state, apply_fill_while_open with everything that it routes to
-- leaves a context in which the identity, price, side and quantity of the order stay, a bound
-- parent venue id stays bound, the attributed quantity, the obligation and the authority epoch do
-- not fall, and the attributed quantity is still the sum of the booked fills, at most the
-- obligation, which is at most the order quantity.
pub apply_fill_while_open-Advances :
    (s : OrderState) (c : OrderCtx) (f : FillRecord)
    → IsValid c
    → Advances c (apply_fill_while_open s c f).1
unfolding apply_fill_while_open
apply_fill_while_open-Advances s c f h =
    let d : OrderCtx = (try_account_fill c f).1 in
    let a : Advances c d = try_account_fill-Advances c f h in
    elim (AccountAttempt-cases (try_account_fill c f).0) [
      | inl (inl e) ↦ rw (e, apply_fill_while_open) a
      | inl (inr (new, e)) ↦
          rw (e, apply_fill_while_open)
            (Advances-trans a (after_new_fill-Advances s d new f.qty (Advances-IsValid a)))
      | inr (inl (new, e)) ↦
          rw (e, apply_fill_while_open)
            (Advances-trans a (after_enrichment-Advances s d new (Advances-IsValid a)))
      | inr (inr (reason, last, e)) ↦ rw (e, apply_fill_while_open) a
    ]

-- So does a fill that a state only books.
pub apply_fill_dedup_only-Advances :
    (c : OrderCtx) (f : FillRecord) (s : OrderState)
    → IsValid c
    → Advances c (apply_fill_dedup_only c f s).1
unfolding apply_fill_dedup_only
apply_fill_dedup_only-Advances c f s h = ground (arith, try_account_fill-Advances c f h)

pub zero_fill-Advances :
    (c : OrderCtx) (v : VenueOrderId) (r : ℕ) (es : List Effect)
    → IsValid c
    → Advances c (zero_fill_response c v r es).1
unfolding zero_fill_response
zero_fill-Advances c v r es h = ground (
  arith,
  route-Advances c v es h,
  latch_and_finalize-Advances c ProposedTerminal.canceled v es ReconcileTerminal.canceled h,
)

keep_averages-Advances :
    (c : OrderCtx) (avg fee : Option ℕ) → IsValid c → Advances c (keep_response_averages c avg fee)
unfolding keep_response_averages
keep_averages-Advances c avg fee h = ground arith

pub resolve-Advances :
    (c : OrderCtx) (s : OrderState) (prior enter : List Effect)
    → IsValid c
    → Advances c (resolve_unattributed c s prior enter).1
unfolding resolve_unattributed
resolve-Advances c (OrderState.immediate_fill_unattributed v count r avg fee) prior enter h =
    let a = keep_averages-Advances c avg fee h in
    ground (
      arith,
      Advances-trans a (
          route-Advances (keep_response_averages c avg fee) v (prior ++ enter)
            (Advances-IsValid a)),
    )
resolve-Advances c _ prior enter h = Advances-refl h

-- ===== src/Lifecycle/Invariant/Responses.antt =====
-- The create response and its page of fills advance a valid context.
use omsrs.Prelude.{ℕ, Option, List, arith}
use omsrs.Lifecycle.Types.{VenueOrderId, OrderState, FillRecord, SnapshotBoundary}
use omsrs.Lifecycle.Events.{Effect}
use omsrs.Lifecycle.Ctx.{OrderCtx, raise_fill_obligation, note_venue_remaining}
use omsrs.Lifecycle.Venue.{bind_venue_id}
use omsrs.Lifecycle.Domain.{recompute_response_domain}
use omsrs.Lifecycle.Response.{
  noted_claim, claimed_fill_response, apply_submit_response, apply_immediate_fill_backfill,
}
use omsrs.Lifecycle.Invariant.{IsValid, Advances, Advances-IsValid, Advances-refl, Advances-trans}
use omsrs.Lifecycle.Invariant.Primitives.{
  note_venue_remaining-Advances, raise-Advances, bind-Advances, recompute-Advances,
}
use omsrs.Lifecycle.Invariant.Accounting.{account_fills-Advances}
use omsrs.Lifecycle.Invariant.Handlers.{zero_fill-Advances, resolve-Advances}

noted_claim-Advances :
    (c : OrderCtx) (n r : ℕ) (avg fee : Option ℕ) (b : Option SnapshotBoundary)
    → IsValid c
    → Advances c (noted_claim c n r avg fee b)
noted_claim-Advances c n r avg fee b h = ground arith

claim-Advances :
    (c : OrderCtx) (v : VenueOrderId) (n r : ℕ) (avg fee : Option ℕ) (b : Option SnapshotBoundary)
    (es : List Effect)
    → IsValid c
    → Advances c (claimed_fill_response c v n r avg fee b es).1
unfolding claimed_fill_response
claim-Advances c v n r avg fee b es h =
    let a = noted_claim-Advances c n r avg fee b h in
    let noted = noted_claim c n r avg fee b in
    let raised : OrderCtx = (raise_fill_obligation noted n).1 in
    let a2 : Advances c raised = Advances-trans a (raise-Advances noted n (Advances-IsValid a)) in
    let d : OrderCtx = recompute_response_domain raised in
    let a3 : Advances c d = Advances-trans a2 (recompute-Advances raised (Advances-IsValid a2)) in
    grind (
      arith,
      a2,
      a3,
      λ (s : OrderState) (p e : List Effect).
          Advances-trans a3 (resolve-Advances d s p e (Advances-IsValid a3)),
    )

-- A create response keeps a valid context valid.
pub apply_submit_response-Advances :
    (c : OrderCtx) (v : VenueOrderId) (n r : ℕ) (avg fee : Option ℕ) (b : Option SnapshotBoundary)
    → IsValid c
    → Advances c (apply_submit_response c v n r avg fee b).1
unfolding apply_submit_response
apply_submit_response-Advances c v n r avg fee b h =
    let bound : OrderCtx = (bind_venue_id c v).1 in
    let a : Advances c bound = bind-Advances c v h in
    let d : OrderCtx = note_venue_remaining bound r in
    let a2 : Advances c d =
      Advances-trans a (note_venue_remaining-Advances bound r (Advances-IsValid a)) in
    grind (
      arith,
      a,
      λ (es : List Effect). Advances-trans a2 (zero_fill-Advances d v r es (Advances-IsValid a2)),
      λ (es : List Effect).
          Advances-trans a2 (claim-Advances d v n r avg fee b es (Advances-IsValid a2)),
    )

-- So does a page of fills.
pub apply_backfill-Advances :
    (c : OrderCtx) (s : OrderState) (fs : List FillRecord)
    → IsValid c
    → Advances c (apply_immediate_fill_backfill c s fs).1
unfolding apply_immediate_fill_backfill
apply_backfill-Advances c (OrderState.immediate_fill_unattributed v n r avg fee) fs h =
    let bound : OrderCtx = (bind_venue_id c v).1 in
    let a : Advances c bound = bind-Advances c v h in
    grind (
      arith,
      a,
      λ (es : List Effect).
          Advances-trans a (account_fills-Advances bound es fs (Advances-IsValid a)),
      λ (d : OrderCtx) (s : OrderState) (p e : List Effect) (x : Advances c d).
          Advances-trans x (resolve-Advances d s p e (Advances-IsValid x)),
    )
apply_backfill-Advances c _ fs h = Advances-refl h

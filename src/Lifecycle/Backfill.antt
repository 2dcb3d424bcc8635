-- ===== src/Lifecycle/Backfill.antt =====
-- src/lifecycle.rs, lines 3494 to 3812: the parts of the routing by venue status: the quantities of
-- a member, the terminal statuses, and the live ones.
use omsrs.Prelude.{
  ℕ, Option, none, some, List, [], ◌∷◌, ◌++◌, Bool, true, false, not, ◌&&◌, ltb, ◌==◌, ◌!=◌, any,
  if◌then◌else◌,
}
use omsrs.Prelude.Words.{checked_sub}
use omsrs.Prelude.Text.{show, concat}
use omsrs.Lifecycle.Types.{VenueOrderId, HaltReason, OrderState, ReconcileTerminal, ReconcileTarget}
use omsrs.Lifecycle.Events.{Effect}
use omsrs.Lifecycle.Ctx.{Result, ok, err, OrderCtx, remaining_qty}
use omsrs.Lifecycle.Outcome.{TransitionOutcome, accept, halt_with_reason}
use omsrs.Lifecycle.Finalize.{ProposedTerminal, try_finalize_terminal}
use omsrs.Lifecycle.Open.{pending_reconcile}

unfoldable pub backfill_member_quantities : OrderCtx → ℕ → ℕ → Result (ℕ × ℕ)
backfill_member_quantities ctx venue_filled_qty other_members_filled =
    let mismatch = HaltReason.cross_check_mismatch (
      concat (
        "other_members_filled="
        ∷ show other_members_filled
        ∷ " exceeds venue_filled="
        ∷ show venue_filled_qty
        ∷ " or order_qty="
        ∷ show ctx.qty
        ∷ [])) in
    elim (checked_sub venue_filled_qty other_members_filled) [
      | none ↦ err mismatch
      | some filled ↦ elim (checked_sub ctx.qty other_members_filled) [
        | none ↦ err mismatch
        | some capacity ↦ ok (filled, capacity)
      ]
    ]

abbrev is_backfill_unknown : Effect → Bool
is_backfill_unknown (Effect.backfill_unknown _) = true
is_backfill_unknown _ = false

-- A submission that is still unknown stays so, where the terminal has to wait.
unfoldable pub keep_matching : OrderCtx → TransitionOutcome → TransitionOutcome
keep_matching ctx (TransitionOutcome.accepted (OrderState.reconcile_pending _ _ _ _ _ _ _) es) =
    accept OrderState.submit_unknown (
      if any is_backfill_unknown es
      then es
      else es ++ Effect.backfill_unknown ctx.client_order_id ∷ [])
keep_matching ctx o = o

unfoldable pub finalize_from_backfill :
    OrderCtx
    → ProposedTerminal
    → VenueOrderId
    → List Effect
    → ReconcileTerminal
    → Bool
    → TransitionOutcome
finalize_from_backfill ctx proposed venue_order_id effects fallback still_unknown =
    let o = try_finalize_terminal ctx proposed venue_order_id effects fallback in
    if still_unknown then keep_matching ctx o else o

-- The requests of `continue_reconcile_pending`.
continue_requests : OrderCtx → VenueOrderId → ℕ → Bool → Bool → List Effect
continue_requests ctx venue_order_id venue_filled_qty from_submit_unknown authority_complete =
    if ltb ctx.attributed_fill_qty venue_filled_qty
    then Effect.backfill_fills venue_order_id ∷ []
    else if from_submit_unknown && not authority_complete
    then Effect.backfill_unknown ctx.client_order_id ∷ []
    else if not authority_complete
    then Effect.request_authority_reconcile (some venue_order_id) ctx.client_order_id
      ∷ Effect.backfill_fills venue_order_id
      ∷ []
    else Effect.backfill_fills venue_order_id ∷ []

unfoldable pub continue_reconcile_pending :
    OrderCtx
    → VenueOrderId
    → ℕ
    → List Effect
    → Bool
    → Bool
    → Option ReconcileTarget
    → TransitionOutcome
unfolding continue_requests
continue_reconcile_pending ctx venue_order_id venue_filled_qty effects from_submit_unknown
      authority_complete target =
    let effects' =
      effects
      ++ continue_requests ctx venue_order_id venue_filled_qty from_submit_unknown
          authority_complete in
    if from_submit_unknown && not authority_complete
    then accept OrderState.submit_unknown effects'
    else elim target [
      | some t ↦ accept (pending_reconcile ctx venue_order_id (remaining_qty ctx) t) effects'
      | none ↦
          if ctx.attributed_fill_qty == 0
          then accept (OrderState.accepted venue_order_id) effects'
          else accept
              (OrderState.partial venue_order_id ctx.attributed_fill_qty (remaining_qty ctx))
              effects'
    ]

-- The live statuses, `Open` and `Partial`.
unfoldable pub route_live_backfill :
    OrderCtx → VenueOrderId → ℕ → ℕ → ℕ → List Effect → Bool → Bool → TransitionOutcome
route_live_backfill ctx venue_order_id venue_remaining_qty member_filled member_capacity effects
      shell_authority_complete from_submit_unknown =
    if from_submit_unknown && not shell_authority_complete
    then accept OrderState.submit_unknown (
        effects
        ++ (if ltb ctx.attributed_fill_qty member_filled
            then Effect.backfill_fills venue_order_id ∷ []
            else [])
        ++ Effect.backfill_unknown ctx.client_order_id ∷ [])
    else if ctx.attributed_fill_qty != member_filled
    then continue_reconcile_pending ctx venue_order_id member_filled effects from_submit_unknown
        shell_authority_complete none
    else elim (checked_sub member_capacity ctx.attributed_fill_qty) [
      | none ↦ halt_with_reason (HaltReason.over_fill ctx.attributed_fill_qty 0 ctx.qty) effects
      | some remaining ↦
          if venue_remaining_qty != remaining
          then halt_with_reason
              (HaltReason.cross_check_mismatch (
                concat (
                  "venue_remaining="
                  ∷ show venue_remaining_qty
                  ∷ " != local_remaining="
                  ∷ show remaining
                  ∷ [])))
              effects
          else if ctx.attributed_fill_qty == 0
          then accept (OrderState.accepted venue_order_id) effects
          else accept (OrderState.partial venue_order_id ctx.attributed_fill_qty remaining) effects
    ]

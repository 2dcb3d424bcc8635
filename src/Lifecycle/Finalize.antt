-- ===== src/Lifecycle/Finalize.antt =====
-- src/lifecycle.rs, lines 2406 to 2675: the one place that releases a reservation, and the way to
-- `ReconcilePending` where its gates fail.
use omsrs.Prelude.{
  ℕ, ◌-◌, max, String, Option, none, some, List, [], ◌∷◌, ◌++◌, Bool, true, false, not, ◌&&◌, ◌||◌,
  ltb, leb, ◌!=◌, or_option, any, same_text, if◌then◌else◌,
}
use omsrs.BTreeMap.{BTreeMap}
use omsrs.Lifecycle.Types.{VenueOrderId, HaltReason, OrderState, ReconcileTerminal, FillPayload}
use omsrs.Lifecycle.Events.{JournalRecord, TerminalKind, Effect}
use omsrs.Lifecycle.Ctx.{OrderCtx, authority_is_fresh, remaining_qty, remaining_qty_checked}
use omsrs.Lifecycle.Domain.{
  has_reliable_boundary, domain_overfill_text, notional_avg_mismatch, fee_cross_check_mismatch,
}
use omsrs.Lifecycle.Outcome.{TransitionOutcome, accept, halt_with_reason}

pub data ProposedTerminal : Type 0 where
  filled : (venue_authoritative_filled venue_remaining_qty : ℕ) → ProposedTerminal
  canceled : ProposedTerminal
  terminal : ProposedTerminal

abbrev is_reconcile_cancel : Effect → Bool
is_reconcile_cancel (Effect.reconcile_cancel _) = true
is_reconcile_cancel _ = false

-- The requests that drive the shell on, after the effects so far.
unfoldable pub reconcile_requests : OrderCtx → VenueOrderId → List Effect → Bool → List Effect
reconcile_requests ctx venue_order_id effects request_authority =
    let effects' =
      if ltb ctx.attributed_fill_qty ctx.fill_obligation
      then effects ++ Effect.backfill_fills venue_order_id ∷ []
      else effects in
    if request_authority || leb ctx.fill_obligation ctx.attributed_fill_qty
    then (let asked =
          effects'
          ++ Effect.request_authority_reconcile (some venue_order_id) ctx.client_order_id ∷ [] in
        if request_authority && not (any is_reconcile_cancel asked)
        then asked ++ Effect.reconcile_cancel (some venue_order_id) ∷ []
        else asked)
    else effects'

unfoldable pub not_ready_for_terminal :
    OrderCtx → VenueOrderId → List Effect → ReconcileTerminal → Bool → Option ℕ → TransitionOutcome
not_ready_for_terminal ctx venue_order_id effects fallback request_authority venue_remaining =
    accept
      (OrderState.reconcile_pending venue_order_id ctx.attributed_fill_qty (remaining_qty ctx)
        (record {
          terminal = fallback;
          venue_filled_qty = max ctx.fill_obligation ctx.attributed_fill_qty;
          venue_remaining_qty = or_option venue_remaining ctx.last_venue_remaining_qty;
        })
        ctx.response_fill_count ctx.response_avg_price_cents ctx.response_fee_cents)
      (reconcile_requests ctx venue_order_id effects request_authority)

-- What one of the gates decides: go on, halt, or wait (with a backfill of fills, and a request of
-- authority, or without).
pub data Gate : Type 0 where
  pass : Gate
  stop : HaltReason → Gate
  wait : (backfill request_authority : Bool) → Gate

-- Gate 5: each fill carries the bound parent.
unfoldable pub provenance_gate : VenueOrderId → BTreeMap FillPayload → Gate
provenance_gate expected [] = Gate.pass
provenance_gate expected ((fid, p) ∷ rest) = elim p.venue_order_id [
  | some got ↦
      if same_text got expected
      then provenance_gate expected rest
      else Gate.stop (HaltReason.fill_ownership_mismatch fid expected got)
  | none ↦ Gate.wait true true
]

unfoldable pub ownership_gate : OrderCtx → Gate
ownership_gate ctx = elim ctx.venue_order_id [
  | none ↦ Gate.pass
  | some expected ↦ provenance_gate expected ctx.applied_fills
]

abbrev pub mismatch_gate : Option String → Gate
mismatch_gate none = Gate.pass
mismatch_gate (some detail) = Gate.stop (HaltReason.cross_check_mismatch detail)

abbrev pub and_then : Gate → Gate → Gate
and_then Gate.pass next = next
and_then (Gate.stop reason) next = Gate.stop reason
and_then (Gate.wait backfill request) next = Gate.wait backfill request

unfoldable pub avg_gate : OrderCtx → ℕ → Gate
avg_gate ctx rc = elim ctx.response_avg_price_cents [
  | none ↦ Gate.pass
  | some avg ↦ mismatch_gate (notional_avg_mismatch ctx.response_domain_notional_cents avg rc)
]

-- Gate 3: the response domain is closed, and agrees with the response.
unfoldable pub domain_gate : OrderCtx → Gate
unfolding avg_gate
domain_gate ctx = elim ctx.response_fill_count [
  | none ↦ Gate.pass
  | some rc ↦
      if has_reliable_boundary ctx
      then (if ltb ctx.response_domain_qty rc
          then Gate.wait true true
          else if ltb rc ctx.response_domain_qty
          then Gate.stop
              (HaltReason.cross_check_mismatch (domain_overfill_text ctx.response_domain_qty rc))
          else and_then (avg_gate ctx rc) (
              mismatch_gate
                (fee_cross_check_mismatch ctx.response_fee_cents ctx.response_domain_fee_cents)))
      else Gate.pass
]

-- Gate 4: `Filled` needs the whole order, at the venue and by fill ids.
unfoldable pub filled_gate : OrderCtx → ProposedTerminal → Gate
filled_gate ctx (ProposedTerminal.filled venue_filled venue_remaining) =
    if ltb ctx.qty venue_filled
    then Gate.stop (
        HaltReason.over_fill ctx.attributed_fill_qty (venue_filled - ctx.attributed_fill_qty)
          ctx.qty)
    else elim (remaining_qty_checked ctx) [
      | none ↦ Gate.stop (HaltReason.over_fill ctx.attributed_fill_qty 0 ctx.qty)
      | some remaining ↦
          if venue_filled != ctx.qty || venue_remaining != 0 || remaining != 0
          then (if ltb ctx.qty ctx.attributed_fill_qty
              then Gate.stop (HaltReason.over_fill ctx.attributed_fill_qty 0 ctx.qty)
              else Gate.wait false false)
          else Gate.pass
    ]
filled_gate ctx ProposedTerminal.canceled = Gate.pass
filled_gate ctx ProposedTerminal.terminal = Gate.pass

-- Gates 1 and 2: the authority is of this generation, and the obligation is attributed.
unfoldable pub authority_gate : OrderCtx → Gate
authority_gate ctx =
    if not (authority_is_fresh ctx)
    then Gate.wait false true
    else if ctx.attributed_fill_qty != ctx.fill_obligation
    then Gate.wait false false
    else Gate.pass

abbrev pub proposed_remaining : OrderCtx → ProposedTerminal → Option ℕ
proposed_remaining ctx (ProposedTerminal.filled _ venue_remaining) = some venue_remaining
proposed_remaining ctx ProposedTerminal.canceled = ctx.last_venue_remaining_qty
proposed_remaining ctx ProposedTerminal.terminal = ctx.last_venue_remaining_qty

abbrev pub terminal_kind : ProposedTerminal → TerminalKind
terminal_kind (ProposedTerminal.filled _ _) = TerminalKind.filled
terminal_kind ProposedTerminal.canceled = TerminalKind.canceled
terminal_kind ProposedTerminal.terminal = TerminalKind.terminal

abbrev pub terminal_state : ProposedTerminal → OrderState
terminal_state (ProposedTerminal.filled _ _) = OrderState.filled
terminal_state ProposedTerminal.canceled = OrderState.canceled
terminal_state ProposedTerminal.terminal = OrderState.terminal

-- Gates 5, 1, 2 and 3 in the order of the source; gate 4 falls back to `Filled`.
unfoldable pub common_gates : OrderCtx → Gate
common_gates ctx = and_then (ownership_gate ctx) (and_then (authority_gate ctx) (domain_gate ctx))

-- A gate that does not pass ends the attempt; where it passes, the rest goes on.
unfoldable pub through_gate :
    OrderCtx
    → VenueOrderId
    → List Effect
    → ReconcileTerminal
    → Option ℕ
    → Gate
    → TransitionOutcome
    → TransitionOutcome
through_gate ctx venue_order_id effects fallback remaining Gate.pass rest = rest
through_gate ctx venue_order_id effects fallback remaining (Gate.stop reason) rest =
    halt_with_reason reason effects
through_gate ctx venue_order_id effects fallback remaining (Gate.wait backfill request) rest =
    not_ready_for_terminal ctx venue_order_id
      (if backfill then effects ++ Effect.backfill_fills venue_order_id ∷ [] else effects) fallback
      request remaining

-- All gates have passed.
unfoldable pub release : OrderCtx → ProposedTerminal → List Effect → TransitionOutcome
release ctx proposed effects = accept (terminal_state proposed) (
    effects
    ++ Effect.append_fsync (
        JournalRecord.order_terminal (terminal_kind proposed) ctx.venue_order_id ctx.fill_obligation
          (authority_is_fresh ctx) ctx.authority_epoch ctx.attributed_fill_qty
          ctx.attributed_fee_cents)
      ∷ Effect.release_reservation
      ∷ [])

unfoldable pub try_finalize_terminal :
    OrderCtx → ProposedTerminal → VenueOrderId → List Effect → ReconcileTerminal → TransitionOutcome
try_finalize_terminal ctx proposed venue_order_id effects fallback =
    through_gate ctx venue_order_id effects fallback (proposed_remaining ctx proposed)
      (common_gates ctx)
      (through_gate ctx venue_order_id effects ReconcileTerminal.filled
        (proposed_remaining ctx proposed) (filled_gate ctx proposed) (release ctx proposed effects))

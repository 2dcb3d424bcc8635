-- ===== src/Scenarios.antt =====
-- The theorems at concrete inputs: an order of ten that is live at venue order "v1".
mod Transactions
mod Twice
mod Foreign
mod Amounts
mod Wires
mod Rounds
mod Traded
mod Restored
use mathlib.Core.Path.{subst}
use omsrs.Prelude.{ℕ, List, some, [], ◌∷◌, ◌++◌, true, ◌≡◌, ◌↔◌, refl, arith}
use omsrs.Prelude.Int.{pos}
use omsrs.BTreeMap.{sum_of}
use omsrs.Lifecycle.Types.{
  Side, OrderState, ReconcileTerminal, FillRecord, FillPayload, CancelOutcome, BackfillOrderStatus,
  SnapshotBoundary,
}
use omsrs.Lifecycle.Events.{OrderEvent, JournalRecord, TerminalKind, Effect}
use omsrs.Lifecycle.Apply.{apply_event}
use omsrs.Lifecycle.Replay.{replay}
use omsrs.Lifecycle.Replayed.{Replayed, replay-Replayed}
use omsrs.Lifecycle.Invariant.Events.{apply_event-Advances}
use omsrs.Lifecycle.Ctx.{OrderCtx, new_ctx}
use omsrs.Lifecycle.Outcome.{TransitionOutcome, effects, new_state}
use omsrs.Lifecycle.Fills.{try_account_fill}
use omsrs.Lifecycle.Finalize.{ProposedTerminal, try_finalize_terminal}
use omsrs.Lifecycle.Releasable.{Answers, Releasable}
use omsrs.Lifecycle.Release.{releases, try_finalize-release_only_if, try_finalize-release_if}
use omsrs.Lifecycle.Invariant.{IsValid, Advances}
use omsrs.Lifecycle.Invariant.Accounting.{try_account_fill-Advances}

abbrev pub fresh_order : OrderCtx
unfolding new_ctx
fresh_order = new_ctx "m|s|1" "m" "s" Side.buy_yes 42 10

abbrev filled_part : ℕ → ℕ → ℕ → FillPayload
filled_part qty price fee = record {
  qty = qty;
  price_cents = price;
  ts_ns = pos 7;
  venue_order_id = some "v1";
  fee = some fee;
}

abbrev pub four : FillRecord
four = record {
  fill_id = "f1";
  qty = 4;
  price_cents = 42;
  ts_ns = pos 7;
  venue_order_id = some "v1";
  fee_cents = some 1;
}

pub fresh_order-IsValid : IsValid fresh_order
unfolding new_ctx sum_of
fresh_order-IsValid = omega arith

-- Five of ten filled, as the create response had them in its snapshot (four at 42, one at 44), and
-- then canceled at the venue.
abbrev pub partly_filled : OrderCtx
unfolding new_ctx
partly_filled = record fresh_order {
  venue_order_id = some "v1";
  authority_complete = true;
  applied_fills = ("f1", filled_part 4 42 1) ∷ ("f2", filled_part 1 44 0) ∷ [];
  fill_obligation = 5;
  attributed_fill_qty = 5;
  attributed_notional_cents = 212;
  attributed_fee_cents = 1;
  response_fill_count = some 5;
  response_avg_price_cents = some 42;
  response_fee_cents = some 1;
  response_snapshot_boundary = some (SnapshotBoundary.ts_ns (pos 9));
  response_domain_qty = 5;
  response_domain_notional_cents = 212;
  response_domain_fee_cents = 1;
}

partly_filled-Answers : Answers partly_filled 5
unfolding new_ctx
partly_filled-Answers = record {
  closed = refl;
  average = λ avg e n. ground (arith, e);
  fee = λ fee e. ground (arith, e);
}

partly_filled-Releasable : Releasable partly_filled ProposedTerminal.canceled
unfolding new_ctx
partly_filled-Releasable = record {
  owned = λ parent e. (e, (e, tt));
  complete = refl;
  latched = refl;
  attributed = refl;
  answered =
      λ rc boundary e b. subst (Answers partly_filled) (ground (arith, e)) partly_filled-Answers;
  covered = λ f r e. ground (arith, e);
}

try_finalize-release_if_example :
    try_finalize_terminal partly_filled ProposedTerminal.canceled "v1" [] ReconcileTerminal.canceled
    ≡ TransitionOutcome.accepted OrderState.canceled (
        Effect.append_fsync
          (JournalRecord.order_terminal TerminalKind.canceled (some "v1") 5 true 0 5 1)
        ∷ Effect.release_reservation
        ∷ [])
unfolding partly_filled
try_finalize-release_if_example =
    try_finalize-release_if partly_filled ProposedTerminal.canceled "v1" []
      ReconcileTerminal.canceled partly_filled-Releasable

partly_filled-releases :
    releases (
      effects (
        try_finalize_terminal partly_filled ProposedTerminal.canceled "v1" []
          ReconcileTerminal.canceled))
    ≡ true
partly_filled-releases = rw try_finalize-release_if_example refl

try_finalize-release_only_if_example :
    Releasable partly_filled ProposedTerminal.canceled
    × (new_state (
          try_finalize_terminal partly_filled ProposedTerminal.canceled "v1" []
            ReconcileTerminal.canceled)
        ≡ some OrderState.canceled)
try_finalize-release_only_if_example =
    try_finalize-release_only_if partly_filled ProposedTerminal.canceled "v1" []
      ReconcileTerminal.canceled refl partly_filled-releases

try_account_fill-Advances_example : Advances fresh_order (try_account_fill fresh_order four).1
try_account_fill-Advances_example = try_account_fill-Advances fresh_order four fresh_order-IsValid

-- A fill that overtakes the create response, the response, and a cancel that the venue confirms
-- before its authority is proved.
abbrev day : List OrderEvent
day =
    OrderEvent.prepare_submit
    ∷ OrderEvent.start_submit "a1"
    ∷ OrderEvent.fill four
    ∷ OrderEvent.submit_response "v1" 4 6 (some 42) (some 1) (some (SnapshotBoundary.ts_ns (pos 9)))
    ∷ OrderEvent.cancel_requested
    ∷ OrderEvent.cancel_outcome CancelOutcome.canceled
    ∷ OrderEvent.reconcile_result BackfillOrderStatus.canceled (some "v1") 4 0 [] true
    ∷ []

apply_event-Advances_example :
    Advances fresh_order
      (apply_event (OrderState.submit_started "a1") fresh_order (OrderEvent.fill four)).1
apply_event-Advances_example =
    apply_event-Advances (OrderState.submit_started "a1") fresh_order (OrderEvent.fill four)
      fresh_order-IsValid

-- After the day, the order has ended, and a second submission is rejected.
abbrev cut_day : List OrderEvent
cut_day = day ++ OrderEvent.prepare_submit ∷ OrderEvent.cancel_requested ∷ []

replay-Replayed_example :
    (replay OrderState.new fresh_order cut_day ≡ replay OrderState.new fresh_order cut_day)
    ↔ Replayed OrderState.new fresh_order cut_day (replay OrderState.new fresh_order cut_day)
replay-Replayed_example =
    replay-Replayed OrderState.new fresh_order cut_day (replay OrderState.new fresh_order cut_day)

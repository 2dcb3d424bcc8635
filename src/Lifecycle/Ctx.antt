-- ===== src/Lifecycle/Ctx.antt =====
-- src/lifecycle.rs, lines 766 to 966: the reservation predicate and the context of an order. A
-- method on `&mut self` returns the new context, after its result where it has one.
use omsrs.Prelude.{
  ◌≡◌, refl, ◌⊎◌, inl, inr, ℕ, ◌%◌, ◌/◌, String, Option, none, some, [], Bool, true, false, ◌&&◌,
  ltb, ◌==◌, if◌then◌else◌, unwrap_or,
}
use omsrs.Prelude.Words.{checked_sub, saturating_add, u64_limit}
use omsrs.BTreeMap.{BTreeMap}
use omsrs.Lifecycle.Types.{
  ClientOrderId, VenueOrderId, Side, OrderState, HaltReason, FillPayload, SnapshotBoundary,
}

-- `Result<A, HaltReason>`
pub data Result {ℓ} (A : Type ℓ) : Type ℓ where
  ok : A → Result A
  err : HaltReason → Result A

pub Result-cases {ℓ} :
    {A : Type ℓ} (r : Result A)
    → ((a : A) × (r ≡ ok a)) ⊎ ((reason : HaltReason) × (r ≡ err reason))
Result-cases (ok a) = inl (a, refl)
Result-cases (err reason) = inr (reason, refl)

pub data ReservationHold : Type 0 where
  full released : ReservationHold

unfoldable pub reservation_held : OrderState → ReservationHold
reservation_held OrderState.canceled = ReservationHold.released
reservation_held OrderState.filled = ReservationHold.released
reservation_held OrderState.terminal = ReservationHold.released
reservation_held (OrderState.submission_closed _) = ReservationHold.released
reservation_held _ = ReservationHold.full

pub record OrderCtx : Type 0 where
  pub client_order_id : ClientOrderId
  pub market : String
  pub strategy : String
  pub side : Side
  pub price_cents : ℕ
  pub qty : ℕ
  pub applied_fills : BTreeMap FillPayload
  pub attributed_fill_qty : ℕ
  pub fill_obligation : ℕ
  pub venue_order_id : Option VenueOrderId
  pub authority_complete : Bool
  pub authority_epoch : ℕ
  pub authority_latched_epoch : ℕ
  pub last_venue_remaining_qty : Option ℕ
  pub response_fill_count : Option ℕ
  pub response_remaining_count : Option ℕ
  pub response_avg_price_cents : Option ℕ
  pub response_fee_cents : Option ℕ
  pub response_snapshot_boundary : Option SnapshotBoundary
  pub attributed_notional_cents : ℕ  -- u128
  pub attributed_fee_cents : ℕ
  pub response_domain_qty : ℕ
  pub response_domain_notional_cents : ℕ  -- u128
  pub response_domain_fee_cents : ℕ

unfoldable pub new_ctx : ClientOrderId → String → String → Side → ℕ → ℕ → OrderCtx
new_ctx client_order_id market strategy side price_cents qty = record {
  client_order_id = client_order_id;
  market = market;
  strategy = strategy;
  side = side;
  price_cents = price_cents;
  qty = qty;
  applied_fills = [];
  attributed_fill_qty = 0;
  fill_obligation = 0;
  venue_order_id = none;
  authority_complete = false;
  authority_epoch = 0;
  authority_latched_epoch = 0;
  last_venue_remaining_qty = none;
  response_fill_count = none;
  response_remaining_count = none;
  response_avg_price_cents = none;
  response_fee_cents = none;
  response_snapshot_boundary = none;
  attributed_notional_cents = 0;
  attributed_fee_cents = 0;
  response_domain_qty = 0;
  response_domain_notional_cents = 0;
  response_domain_fee_cents = 0;
}

unfoldable pub invalidate_authority : OrderCtx → OrderCtx
invalidate_authority ctx = record ctx {
  authority_epoch = saturating_add ctx.authority_epoch 1;
  authority_complete = false;
}

unfoldable pub raise_fill_obligation : OrderCtx → ℕ → Result (Unit {0}) × OrderCtx
raise_fill_obligation ctx evidence =
    if ltb ctx.qty evidence
    then (err (HaltReason.obligation_exceeds_order_qty evidence ctx.qty), ctx)
    else if ltb ctx.fill_obligation evidence
    then (
      ok tt,
      let raised = record ctx { fill_obligation = evidence } in
          if ltb raised.attributed_fill_qty raised.fill_obligation
          then invalidate_authority raised
          else raised,
    )
    else (ok tt, ctx)

unfoldable pub authority_is_fresh : OrderCtx → Bool
authority_is_fresh ctx =
    ctx.authority_complete && ctx.authority_latched_epoch == ctx.authority_epoch

unfoldable pub latch_authority_complete : OrderCtx → OrderCtx
latch_authority_complete ctx = record ctx {
  authority_complete = true;
  authority_latched_epoch = ctx.authority_epoch;
}

unfoldable pub note_venue_remaining : OrderCtx → ℕ → OrderCtx
note_venue_remaining ctx remaining = record ctx { last_venue_remaining_qty = some remaining }

unfoldable pub remaining_qty_checked : OrderCtx → Option ℕ
remaining_qty_checked ctx = checked_sub ctx.qty ctx.attributed_fill_qty

unfoldable pub remaining_qty : OrderCtx → ℕ
remaining_qty ctx = unwrap_or (remaining_qty_checked ctx) 0

-- The cast of the u128 quotient to u64 keeps its low 64 bits.
unfoldable pub attributed_avg_price_cents : OrderCtx → Option ℕ
attributed_avg_price_cents ctx =
    if ctx.attributed_fill_qty == 0
    then none
    else some ((ctx.attributed_notional_cents / ctx.attributed_fill_qty) % u64_limit)

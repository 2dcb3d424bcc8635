-- ===== src/Lifecycle/Domain.antt =====
-- src/lifecycle.rs, lines 2239 to 2355: the response snapshot domain, and the checks of a response
-- against the fills in it.
use omsrs.Prelude.{
  ℕ, ◌-◌, ◌*◌, String, Option, none, some, [], ◌∷◌, Bool, true, false, not, ◌&&◌, ◌||◌, ltb, leb,
  ◌==◌, ◌!=◌, is_none, if◌then◌else◌,
}
use omsrs.Prelude.Int.{ℤ, leb_ℤ}
use omsrs.Prelude.Words.{saturating_add, saturating_add_u128}
use omsrs.Prelude.Text.{show, concat}
use omsrs.BTreeMap.{BTreeMap}
use omsrs.Lifecycle.Types.{FillPayload, SnapshotBoundary}
use omsrs.Lifecycle.Ctx.{OrderCtx}

unfoldable pub boundary_is_ts : Option SnapshotBoundary → Bool
boundary_is_ts (some (SnapshotBoundary.ts_ns _)) = true
boundary_is_ts _ = false

unfoldable pub has_reliable_boundary : OrderCtx → Bool
unfolding boundary_is_ts
has_reliable_boundary ctx = boundary_is_ts ctx.response_snapshot_boundary

in_boundary : Option SnapshotBoundary → ℤ → Bool
in_boundary (some (SnapshotBoundary.ts_ns boundary)) ts = leb_ℤ ts boundary
in_boundary (some (SnapshotBoundary.seq _)) ts = false
in_boundary none ts = false

unfoldable pub fill_in_response_domain : OrderCtx → ℤ → Bool
unfolding in_boundary
fill_in_response_domain ctx ts_ns = in_boundary ctx.response_snapshot_boundary ts_ns

unfoldable pub domain_overfill_text : ℕ → ℕ → String
domain_overfill_text domain_qty rc =
    concat ("response_domain_qty=" ∷ show domain_qty ∷ " > response_fill_count=" ∷ show rc ∷ [])

unfoldable pub response_domain_overfill_detail : OrderCtx → Option String
response_domain_overfill_detail ctx = elim ctx.response_fill_count [
  | none ↦ none
  | some rc ↦
      if has_reliable_boundary ctx && ltb rc ctx.response_domain_qty
      then some (domain_overfill_text ctx.response_domain_qty rc)
      else none
]

add_fee : ℕ → Option ℕ → ℕ
add_fee total none = total
add_fee total (some f) = saturating_add total f

unfoldable pub accumulate_response_domain : OrderCtx → ℕ → ℕ → Option ℕ → ℤ → OrderCtx
unfolding add_fee
accumulate_response_domain ctx qty price_cents fee_cents ts_ns =
    if is_none ctx.response_fill_count
    then ctx
    else if not (has_reliable_boundary ctx)
    then ctx
    else if not (fill_in_response_domain ctx ts_ns)
    then ctx
    else record ctx {
      response_domain_qty = saturating_add ctx.response_domain_qty qty;
      response_domain_notional_cents =
          saturating_add_u128 ctx.response_domain_notional_cents (qty * price_cents);
      response_domain_fee_cents = add_fee ctx.response_domain_fee_cents fee_cents;
    }

unfoldable pub accumulate_all : OrderCtx → BTreeMap FillPayload → OrderCtx
accumulate_all ctx [] = ctx
accumulate_all ctx ((_, p) ∷ rest) =
    accumulate_all (accumulate_response_domain ctx p.qty p.price_cents p.fee p.ts_ns) rest

abbrev pub cleared_domain : OrderCtx → OrderCtx
cleared_domain ctx = record ctx {
  response_domain_qty = 0;
  response_domain_notional_cents = 0;
  response_domain_fee_cents = 0;
}

unfoldable pub recompute_response_domain : OrderCtx → OrderCtx
recompute_response_domain ctx =
    if is_none ctx.response_fill_count || not (has_reliable_boundary ctx)
    then cleared_domain ctx
    else accumulate_all (cleared_domain ctx) ctx.applied_fills

unfoldable pub notional_avg_mismatch : ℕ → ℕ → ℕ → Option String
notional_avg_mismatch attributed_notional response_avg fill_count =
    if fill_count == 0
    then none
    else let expected = response_avg * fill_count in
      let tol = fill_count in
      let diff =
        if leb expected attributed_notional
        then attributed_notional - expected
        else expected - attributed_notional in
      if ltb tol diff
      then some (
          concat (
            "avg/notional mismatch: response_avg="
            ∷ show response_avg
            ∷ " fill_count="
            ∷ show fill_count
            ∷ " expected_notional="
            ∷ show expected
            ∷ " attributed_notional="
            ∷ show attributed_notional
            ∷ " tol=±"
            ∷ show tol
            ∷ []))
      else none

unfoldable pub fee_cross_check_mismatch : Option ℕ → ℕ → Option String
fee_cross_check_mismatch none attributed_fee = none
fee_cross_check_mismatch (some resp) attributed_fee =
    if resp != attributed_fee
    then some (
        concat (
          "fee mismatch: response_fee_cents="
          ∷ show resp
          ∷ " attributed_fee_cents="
          ∷ show attributed_fee
          ∷ []))
    else none

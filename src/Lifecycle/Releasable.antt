-- ===== src/Lifecycle/Releasable.antt =====
-- src/lifecycle.rs, lines 2420 to 2429: the five release invariants as `try_finalize_terminal`
-- documents them.
use omsrs.Prelude.{ℕ, ◌+◌, ◌*◌, ◌≤◌, ◌≡◌, ◌≢◌, some, [], ◌∷◌, true}
use omsrs.Prelude.Int.{ℤ}
use omsrs.BTreeMap.{BTreeMap}
use omsrs.Lifecycle.Types.{VenueOrderId, OrderState, FillPayload, SnapshotBoundary}
use omsrs.Lifecycle.Ctx.{OrderCtx}
use omsrs.Lifecycle.Events.{TerminalKind}
use omsrs.Lifecycle.Finalize.{ProposedTerminal}

-- Each fill carries the parent venue id.
abbrev pub AllCarry : VenueOrderId → BTreeMap FillPayload → Type 0
AllCarry parent [] = Unit {0}
AllCarry parent ((id, f) ∷ fills) = (f.venue_order_id ≡ some parent) × AllCarry parent fills

-- The fills in the snapshot of the create response are the `rc` that it counted, at its average to
-- within one cent for each, and for its fee.
pub record Answers (c : OrderCtx) (rc : ℕ) : Type 0 where
  pub closed : c.response_domain_qty ≡ rc
  pub average :
      (avg : ℕ)
      → c.response_avg_price_cents ≡ some avg
      → rc ≢ 0
      → (avg * rc ≤ c.response_domain_notional_cents + rc)
        × (c.response_domain_notional_cents ≤ avg * rc + rc)
  pub fee : (fee : ℕ) → c.response_fee_cents ≡ some fee → c.response_domain_fee_cents ≡ fee

-- The state and the kind of record in which a proposal ends.
abbrev pub ends : ProposedTerminal → OrderState × TerminalKind
ends (ProposedTerminal.filled _ _) = (OrderState.filled, TerminalKind.filled)
ends ProposedTerminal.canceled = (OrderState.canceled, TerminalKind.canceled)
ends ProposedTerminal.terminal = (OrderState.terminal, TerminalKind.terminal)

-- The five invariants of a release.
pub record Releasable (c : OrderCtx) (p : ProposedTerminal) : Type 0 where
  pub owned :
      (parent : VenueOrderId) → c.venue_order_id ≡ some parent → AllCarry parent c.applied_fills
  pub complete : c.authority_complete ≡ true
  pub latched : c.authority_latched_epoch ≡ c.authority_epoch
  pub attributed : c.attributed_fill_qty ≡ c.fill_obligation
  pub answered :
      (rc : ℕ) (boundary : ℤ)
      → c.response_fill_count ≡ some rc
      → c.response_snapshot_boundary ≡ some (SnapshotBoundary.ts_ns boundary)
      → Answers c rc
  pub covered :
      (venue_filled venue_remaining : ℕ)
      → p ≡ ProposedTerminal.filled venue_filled venue_remaining
      → (venue_filled ≡ c.qty) × (venue_remaining ≡ 0) × (c.attributed_fill_qty ≡ c.qty)

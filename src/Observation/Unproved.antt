-- ===== src/Observation/Unproved.antt =====
-- src/observation.rs, lines 782 to 835 and 910 to 932: a wire that nothing proves has no known rest.
use omsrs.Prelude.{◌≡◌, refl, none, List, arith, Option-cases, inl, inr}
use omsrs.Lifecycle.Types.{VenueOrderId}
use omsrs.Execution.Types.{LedgerId, ok}
use omsrs.Observation.Types.{WireState, WireKey, WireLine, WireRegistry}
use omsrs.Observation.Answers.{WorkingView}
use omsrs.Observation.Registry.{venue_only_wire, key, wire_of}
use omsrs.Observation.Binding.{bind_wire, bump_wire}
use omsrs.Observation.OrderPart.{release_hold}
use omsrs.Observation.Holding.{hold_execution}
use omsrs.Observation.Fold.{rebuild_registry}
use omsrs.Observation.Views.{observed_view, wire_view, working_view}
use omsrs.Observation.Every.{IsKept, Every, AllBring}
use omsrs.Observation.EveryLine.{rebuild_registry-Every}

-- The wire under this key has no remaining quantity that was observed.
abbrev pub IsUnproved : LedgerId → VenueOrderId → WireKey → WireState → Type 0
IsUnproved ledger wire k ws = k ≡ key ledger wire → ws.remaining_observation ≡ none

pub IsUnproved-IsKept : (ledger : LedgerId) (wire : VenueOrderId) → IsKept (IsUnproved ledger wire)
unfolding venue_only_wire bind_wire bump_wire hold_execution release_hold
IsUnproved-IsKept ledger wire = record {
  fresh = λ k e. refl;
  bound = λ k pos cid ws h e. ground (arith, h e);
  ended = λ k cid ws h e. h e;
  bumped = λ k cid ws h e. ground (arith, h e);
  holding = λ k id entry ws h e. ground (arith, h e);
  released = λ k cid ws h e. ground (arith, h e);
  amended = λ k lineage ws h e. h e;
  received = λ k pos e ws h p. h p;
  held = λ k pos ws h e. h e;
}

unproved_view :
    (ws : WireState) → ws.remaining_observation ≡ none → wire_view ws ≡ WorkingView.unresolved
unfolding wire_view observed_view
unproved_view ws h = ground (arith, h)

pub unproved-working_view :
    (reg : WireRegistry) (ledger : LedgerId) (wire : VenueOrderId)
    → Every (IsUnproved ledger wire) reg
    → working_view reg ledger wire ≡ WorkingView.unresolved
unfolding working_view
unproved-working_view reg ledger wire h = elim (Option-cases (wire_of reg ledger wire)) [
  | inl e ↦ ground (arith, e)
  | inr (ws, e) ↦ ground (arith, e, unproved_view ws (h ledger wire ws e refl))
]

-- If no observation or proof of a wire in a journal brings a remaining quantity, and the journal
-- rebuilds, the working view of the wire is unresolved.
pub rebuild_registry-unproved :
    (ledger : LedgerId) (wire : VenueOrderId) (lines : List WireLine) (reg : WireRegistry)
    → rebuild_registry lines ≡ ok reg
    → AllBring (IsUnproved ledger wire) lines
    → working_view reg ledger wire ≡ WorkingView.unresolved
rebuild_registry-unproved ledger wire lines reg h b =
    unproved-working_view reg ledger wire (
      rebuild_registry-Every (IsUnproved ledger wire) (IsUnproved-IsKept ledger wire) lines reg h b)

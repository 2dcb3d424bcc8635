-- ===== src/Execution/Staging.antt =====
-- src/execution.rs, lines 473 to 566: the payload that a batch stages for one execution, the tests
-- for a conflict and its witness.
use omsrs.Prelude.{
  ℕ, Option, none, some, Bool, true, false, ◌||◌, ◌!=◌, not, same_text, if◌then◌else◌,
}
use omsrs.Prelude.Int.{ℤ, pos}
use omsrs.Lifecycle.Types.{ClientOrderId, VenueOrderId, FillId, Side, FillRecord, FillPayload}
use omsrs.Execution.Types.{ExecutionSource, InventoryEntry, InventoryProvenance, ConflictWitness}

pub record StagedPayload : Type 0 where
  pub side : Side
  pub qty : ℕ
  pub price_cents : ℕ
  pub first_seen_ts_ns : ℤ
  pub venue_order_id : Option VenueOrderId
  pub claimed_client_order_id : Option ClientOrderId
  pub fee_cents : Option ℕ
  pub source : ExecutionSource

abbrev pub to_entry : StagedPayload → Option ClientOrderId → InventoryProvenance → InventoryEntry
to_entry s owner provenance = record {
  side = s.side;
  qty = s.qty;
  price_cents = s.price_cents;
  first_seen_ts_ns = s.first_seen_ts_ns;
  venue_order_id = s.venue_order_id;
  claimed_client_order_id = s.claimed_client_order_id;
  owner = owner;
  fee_cents = s.fee_cents;
  source = s.source;
  provenance = provenance;
}

abbrev pub as_fill_record : StagedPayload → FillId → FillRecord
as_fill_record s id = record {
  fill_id = id;
  qty = s.qty;
  price_cents = s.price_cents;
  ts_ns = s.first_seen_ts_ns;
  venue_order_id = s.venue_order_id;
  fee_cents = s.fee_cents;
}

abbrev pub same_side : Side → Side → Bool
same_side Side.buy_yes Side.buy_yes = true
same_side Side.buy_yes Side.sell_yes = false
same_side Side.sell_yes Side.buy_yes = false
same_side Side.sell_yes Side.sell_yes = true

-- Both are known and differ.
abbrev pub venue_conflict : Option VenueOrderId → Option VenueOrderId → Bool
venue_conflict none b = false
venue_conflict (some a) none = false
venue_conflict (some a) (some b) = not (same_text a b)

unfoldable pub core_disagree_qty_price_venue :
    ℕ → ℕ → Option VenueOrderId → ℕ → ℕ → Option VenueOrderId → Bool
core_disagree_qty_price_venue qty_a price_a venue_a qty_b price_b venue_b =
    if qty_a != qty_b || price_a != price_b then true else venue_conflict venue_a venue_b

unfoldable pub fee_conflict : Option ℕ → Option ℕ → Bool
fee_conflict none b = false
fee_conflict (some x) none = false
fee_conflict (some x) (some y) = x != y

no_witness : InventoryEntry
no_witness = record {
  side = Side.buy_yes;
  qty = 0;
  price_cents = 0;
  first_seen_ts_ns = pos 0;
  venue_order_id = none;
  claimed_client_order_id = none;
  owner = none;
  fee_cents = none;
  source = ExecutionSource.ws_fill;
  provenance = InventoryProvenance.no_row;
}

unfoldable pub build_conflict_witness :
    Option StagedPayload
    → Option InventoryEntry
    → Option (ClientOrderId × FillPayload)
    → ConflictWitness
unfolding no_witness
build_conflict_witness (some s) entry q =
    ConflictWitness.staged (to_entry s none InventoryProvenance.no_row)
build_conflict_witness none (some e) (some (cid, p)) = ConflictWitness.both e cid p
build_conflict_witness none (some e) none = ConflictWitness.entry e
build_conflict_witness none none (some (cid, p)) = ConflictWitness.order_applied cid p
build_conflict_witness none none none = ConflictWitness.staged no_witness

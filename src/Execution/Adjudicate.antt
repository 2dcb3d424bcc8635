-- ===== src/Execution/Adjudicate.antt =====
-- src/execution.rs, lines 1137 to 1576: each evidence of a batch against the inventory (P), the
-- fills of the order (Q) and what the batch has staged so far (S), before the order core sees it.
-- The tests for a batch on a foreign row are those without Q.
use omsrs.Prelude.{
  ℕ, ◌==◌, Option, none, some, Bool, false, not, ◌||◌, ◌&&◌, is_some, is_none, or_option, unwrap_or,
  same_text, if◌then◌else◌,
}
use omsrs.Prelude.Int.{ℤ}
use omsrs.BTreeMap.{BTreeMap, lookup, insert}
use omsrs.Lifecycle.Types.{ClientOrderId, VenueOrderId, FillPayload}
use omsrs.Execution.Types.{
  ExecutionEvidence, InventoryEntry, InventoryProvenance, ConflictWitness, ConflictClass,
  ConflictFact, MarketInventory, OrderRow, RefusalReason, OrderDisposition, InventoryDisposition,
}
use omsrs.Execution.Staging.{
  StagedPayload, to_entry, same_side, core_disagree_qty_price_venue, fee_conflict,
  build_conflict_witness,
}
use omsrs.Execution.Inventory.{get}
use omsrs.Execution.NoRow.{fact_of}

pub data PreCore : Type 0 where
  ignored_zero : PreCore
  refused :
      (order : OrderDisposition) (inventory : InventoryDisposition)
      (entry_after : Option InventoryEntry) (conflict : Option ConflictFact)
      → PreCore
  admitted : (staged : StagedPayload) → PreCore

abbrev pub Staging : Type 0
Staging = BTreeMap StagedPayload

-- What two observations of one execution have to agree on.
pub record CoreFacts : Type 0 where
  pub qty : ℕ
  pub price_cents : ℕ
  pub venue_order_id : Option VenueOrderId

abbrev pub disagree : CoreFacts → CoreFacts → Bool
disagree a b =
    core_disagree_qty_price_venue a.qty a.price_cents a.venue_order_id b.qty b.price_cents
      b.venue_order_id

abbrev pub evidence_facts : ExecutionEvidence → CoreFacts
evidence_facts e = record {
  qty = e.qty;
  price_cents = e.price_cents;
  venue_order_id = e.venue_order_id;
}

abbrev pub staged_facts : StagedPayload → CoreFacts
staged_facts s = record {
  qty = s.qty;
  price_cents = s.price_cents;
  venue_order_id = s.venue_order_id;
}

abbrev pub entry_facts : InventoryEntry → CoreFacts
entry_facts p = record {
  qty = p.qty;
  price_cents = p.price_cents;
  venue_order_id = p.venue_order_id;
}

abbrev pub payload_facts : FillPayload → CoreFacts
payload_facts q = record {
  qty = q.qty;
  price_cents = q.price_cents;
  venue_order_id = q.venue_order_id;
}

-- A test on a value that may be missing.
abbrev pub holds {ℓ} : {A : Type ℓ} → Option A → (A → Bool) → Bool
holds none test = false
holds (some a) test = test a

-- Any pair among E, S, P and Q disagrees; a side is known of E, S and P.
unfoldable pub core_hit :
    ExecutionEvidence → Option StagedPayload → Option InventoryEntry → Option FillPayload → Bool
core_hit e s p q =
    holds s (λ (sp : StagedPayload).
      not (same_side e.side sp.side) || disagree (evidence_facts e) (staged_facts sp))
    || holds p (λ (pp : InventoryEntry).
      not (same_side e.side pp.side) || disagree (evidence_facts e) (entry_facts pp))
    || holds q (λ (qq : FillPayload). disagree (evidence_facts e) (payload_facts qq))
    || holds s (λ (sp : StagedPayload). holds p (λ (pp : InventoryEntry).
      not (same_side sp.side pp.side) || disagree (staged_facts sp) (entry_facts pp)))
    || holds s (λ (sp : StagedPayload).
      holds q (λ (qq : FillPayload). disagree (staged_facts sp) (payload_facts qq)))
    || holds p (λ (pp : InventoryEntry).
      holds q (λ (qq : FillPayload). disagree (entry_facts pp) (payload_facts qq)))

-- The value of a field that may be missing, of a record that may be missing.
abbrev pub flat {ℓ κ} : {A : Type ℓ} {B : Type κ} → Option A → (A → Option B) → Option B
flat none field = none
flat (some a) field = field a

unfoldable pub fee_hit :
    ExecutionEvidence → Option StagedPayload → Option InventoryEntry → Option FillPayload → Bool
fee_hit e s p q =
    let fee_s : Option ℕ = flat s (λ (sp : StagedPayload). sp.fee_cents) in
    let fee_p : Option ℕ = flat p (λ (pp : InventoryEntry). pp.fee_cents) in
    let fee_q : Option ℕ = flat q (λ (qq : FillPayload). qq.fee) in
    fee_conflict e.fee_cents fee_s
    || fee_conflict e.fee_cents fee_p
    || fee_conflict e.fee_cents fee_q
    || fee_conflict fee_s fee_p
    || fee_conflict fee_s fee_q
    || fee_conflict fee_p fee_q

-- A later evidence fills in what the staged payload leaves open.
abbrev pub merge_staged : StagedPayload → ExecutionEvidence → StagedPayload
merge_staged sp e = record sp {
  venue_order_id = or_option sp.venue_order_id e.venue_order_id;
  fee_cents = or_option sp.fee_cents e.fee_cents;
  claimed_client_order_id = or_option sp.claimed_client_order_id e.claimed_client_order_id;
}

abbrev pub staged_evidence : ExecutionEvidence → StagedPayload
staged_evidence e = record {
  side = e.side;
  qty = e.qty;
  price_cents = e.price_cents;
  first_seen_ts_ns = e.ts_ns;
  venue_order_id = e.venue_order_id;
  claimed_client_order_id = e.claimed_client_order_id;
  fee_cents = e.fee_cents;
  source = e.source;
}

-- The canonical payload: the inventory's values come first, then those of the order's fill.
abbrev pub staged_merged :
    ExecutionEvidence → Option InventoryEntry → Option FillPayload → StagedPayload
staged_merged e p q =
    let seen_p : Option ℤ = flat p (λ (pp : InventoryEntry). some pp.first_seen_ts_ns) in
    let seen_q : Option ℤ = flat q (λ (qq : FillPayload). some qq.ts_ns) in
    let venue_p : Option VenueOrderId = flat p (λ (pp : InventoryEntry). pp.venue_order_id) in
    let venue_q : Option VenueOrderId = flat q (λ (qq : FillPayload). qq.venue_order_id) in
    let fee_p : Option ℕ = flat p (λ (pp : InventoryEntry). pp.fee_cents) in
    let fee_q : Option ℕ = flat q (λ (qq : FillPayload). qq.fee) in
    record (staged_evidence e) {
      first_seen_ts_ns = unwrap_or (or_option seen_p seen_q) e.ts_ns;
      venue_order_id = or_option (or_option venue_p venue_q) e.venue_order_id;
      fee_cents = or_option (or_option fee_p fee_q) e.fee_cents;
    }

-- The verdict on one evidence, and the staging after it.
abbrev pub Verdict : Type 0
Verdict = PreCore × Staging

abbrev pub conflicted :
    ExecutionEvidence
    → RefusalReason
    → ConflictClass
    → ConflictWitness
    → Option InventoryEntry
    → PreCore
conflicted e reason class witness p =
    PreCore.refused (OrderDisposition.refused reason) (InventoryDisposition.conflict class) p
      (some (fact_of e class witness))

abbrev pub doubled : ExecutionEvidence → RefusalReason → Option InventoryEntry → PreCore
doubled e reason p =
    PreCore.refused (OrderDisposition.refused reason) InventoryDisposition.duplicate p none

-- A foreign row: an entry that is there takes venue and fee, never the claimed id.
unfoldable pub foreign_known : RefusalReason → ExecutionEvidence → InventoryEntry → PreCore
foreign_known refusal e p =
    let upgraded =
      is_none p.venue_order_id && is_some e.venue_order_id
      || is_none p.fee_cents && is_some e.fee_cents in
    if upgraded
    then PreCore.refused (OrderDisposition.refused refusal) InventoryDisposition.upgraded
        (some (record p {
          venue_order_id = or_option p.venue_order_id e.venue_order_id;
          fee_cents = or_option p.fee_cents e.fee_cents;
        }))
        none
    else doubled e refusal (some p)

unfoldable pub adjudicate_foreign :
    MarketInventory → RefusalReason → Staging → ExecutionEvidence → Verdict
adjudicate_foreign inventory refusal staging e =
    let id = e.execution_id in
    let p = get inventory id in
    let s = lookup id staging in
    if e.qty == 0
    then (PreCore.ignored_zero, staging)
    else if core_hit e s p none
    then (conflicted e refusal ConflictClass.core (build_conflict_witness s p none) p, staging)
    else if fee_hit e s p none
    then (conflicted e refusal ConflictClass.fee (build_conflict_witness s p none) p, staging)
    else elim s [
      | some sp ↦ (doubled e refusal p, insert id (merge_staged sp e) staging)
      | none ↦ elim p [
        | some pp ↦ (foreign_known refusal e pp, staging)
        | none ↦ (
          PreCore.refused (OrderDisposition.refused refusal)
              (InventoryDisposition.ingested InventoryProvenance.row_foreign)
              (some (to_entry (staged_evidence e) none InventoryProvenance.row_foreign)) none,
          insert id (staged_evidence e) staging,
        )
      ]
    ]

-- The entry belongs to another order.
unfoldable pub other_owner :
    ClientOrderId → Option InventoryEntry → Option (ClientOrderId × InventoryEntry)
other_owner cid none = none
other_owner cid (some p) = elim p.owner [
  | none ↦ none
  | some owner ↦ if same_text owner cid then none else some (owner, p)
]

unfoldable pub adjudicate_owned :
    OrderRow
    → Staging
    → ExecutionEvidence
    → Option StagedPayload
    → Option InventoryEntry
    → Option FillPayload
    → Verdict
adjudicate_owned order staging e s p q =
    let witness =
      build_conflict_witness s p
        (flat q (λ (qq : FillPayload). some (order.ctx.client_order_id, qq))) in
    if fee_hit e s p q
    then (conflicted e RefusalReason.fee_conflict ConflictClass.fee witness p, staging)
    else elim s [
      | some sp ↦ (
        doubled e RefusalReason.in_batch_duplicate p,
        insert e.execution_id (merge_staged sp e) staging,
      )
      | none ↦ (
        PreCore.admitted (staged_merged e p q),
        insert e.execution_id (staged_merged e p q) staging,
      )
    ]

unfoldable pub adjudicate_own : MarketInventory → OrderRow → Staging → ExecutionEvidence → Verdict
adjudicate_own inventory order staging e =
    let id = e.execution_id in
    let p = get inventory id in
    let q = lookup id order.ctx.applied_fills in
    let s = lookup id staging in
    let witness =
      build_conflict_witness s p
        (flat q (λ (qq : FillPayload). some (order.ctx.client_order_id, qq))) in
    if e.qty == 0
    then (PreCore.ignored_zero, staging)
    else if core_hit e s p q
    then (
      conflicted e (RefusalReason.conflicting_execution ConflictClass.core) ConflictClass.core
          witness p,
      staging,
    )
    else elim (other_owner order.ctx.client_order_id p) [
      | some (owner, pp) ↦ (
        conflicted e (RefusalReason.duplicate_other_owner owner) ConflictClass.ownership
            (ConflictWitness.entry pp) (some pp),
        staging,
      )
      | none ↦ adjudicate_owned order staging e s p q
    ]

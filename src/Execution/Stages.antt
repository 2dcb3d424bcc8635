-- ===== src/Execution/Stages.antt =====
-- What a verdict on an evidence stages.
use omsrs.Prelude.{
  ◌≡◌, refl, ◌==◌, Option, Bool, true, false, some, none, arith, Bool-cases, inl, inr, eq_iff,
}
use omsrs.BTreeMap.{BTreeMap, lookup, insert, contains_key, lookup-insert}
use omsrs.Lifecycle.Types.{FillId, FillPayload, ClientOrderId}
use omsrs.Execution.Types.{
  ExecutionEvidence, InventoryEntry, MarketInventory, InventoryDisposition, OrderRow,
  InventoryProvenance, OrderDisposition, ConflictClass, ConflictWitness, RefusalReason,
}
use omsrs.Execution.Staging.{StagedPayload, to_entry, build_conflict_witness}
use omsrs.Execution.Inventory.{get}
use omsrs.Execution.Adjudicate.{
  PreCore, Staging, Verdict, adjudicate_foreign, adjudicate_own, adjudicate_owned, foreign_known,
  other_owner, merge_staged, staged_evidence, staged_merged, conflicted, doubled, core_hit, fee_hit,
  flat,
}

-- The execution may come into the inventory.
abbrev pub takes : PreCore → Bool
takes (PreCore.admitted _) = true
takes (PreCore.refused _ (InventoryDisposition.ingested _) _ _) = true
takes _ = false

-- A verdict takes only what is not staged, and stages it; what is staged stays so.
pub record Stages (staging : Staging) (e : ExecutionEvidence) (x : Verdict) : Type 0 where
  pub new : takes x.0 ≡ true → contains_key e.execution_id staging ≡ false
  pub staged : takes x.0 ≡ true → contains_key e.execution_id x.1 ≡ true
  pub kept : (j : FillId) → contains_key j staging ≡ true → contains_key j x.1 ≡ true

contains-insert_self {ℓ} :
    {V : Type ℓ} (k : FillId) (v : V) (m : BTreeMap V) → contains_key k (insert k v m) ≡ true
contains-insert_self k v m = ground (arith, lookup-insert k k v m, eq_iff k k)

contains-insert_other {ℓ} :
    {V : Type ℓ} (k j : FillId) (v : V) (m : BTreeMap V)
    → contains_key j m ≡ true
    → contains_key j (insert k v m) ≡ true
contains-insert_other k j v m h = ground (arith, lookup-insert k j v m, h)

left-Stages :
    (staging : Staging) (e : ExecutionEvidence) (v : PreCore)
    → takes v ≡ false
    → Stages staging e (v, staging)
left-Stages staging e v h = record {
  new = λ t. cc (h, t);
  staged = λ t. cc (h, t);
  kept = λ j g. g;
}

merged-Stages :
    (staging : Staging) (e : ExecutionEvidence) (v : PreCore) (x : StagedPayload)
    → takes v ≡ false
    → Stages staging e (v, insert e.execution_id x staging)
merged-Stages staging e v x h = record {
  new = λ t. cc (h, t);
  staged = λ t. cc (h, t);
  kept = λ j. contains-insert_other e.execution_id j x staging;
}

fresh-Stages :
    (staging : Staging) (e : ExecutionEvidence) (v : PreCore) (x : StagedPayload)
    → lookup e.execution_id staging ≡ none
    → Stages staging e (v, insert e.execution_id x staging)
fresh-Stages staging e v x h = record {
  new = λ t. ground (arith, h);
  staged = λ t. contains-insert_self e.execution_id x staging;
  kept = λ j. contains-insert_other e.execution_id j x staging;
}

foreign_known-takes :
    (refusal : RefusalReason) (e : ExecutionEvidence) (p : InventoryEntry)
    → takes (foreign_known refusal e p) ≡ false
unfolding foreign_known
foreign_known-takes refusal e p = ground arith

foreign_choice-Stages :
    (refusal : RefusalReason) (staging : Staging) (e : ExecutionEvidence) (s : Option StagedPayload)
    (p : Option InventoryEntry)
    → lookup e.execution_id staging ≡ s
    → Stages staging e (elim s [
      | some sp ↦ (doubled e refusal p, insert e.execution_id (merge_staged sp e) staging)
      | none ↦ elim p [
        | some pp ↦ (foreign_known refusal e pp, staging)
        | none ↦ (
          PreCore.refused
              (OrderDisposition.refused refusal)
              (InventoryDisposition.ingested InventoryProvenance.row_foreign)
              (some (to_entry (staged_evidence e) none InventoryProvenance.row_foreign))
              none,
          insert e.execution_id (staged_evidence e) staging,
        )
      ]
    ])
foreign_choice-Stages refusal staging e (some sp) p h =
    merged-Stages staging e (doubled e refusal p) (merge_staged sp e) refl
foreign_choice-Stages refusal staging e none (some pp) h =
    left-Stages staging e _ (foreign_known-takes refusal e pp)
foreign_choice-Stages refusal staging e none none h =
    fresh-Stages staging e
      (PreCore.refused (OrderDisposition.refused refusal)
        (InventoryDisposition.ingested InventoryProvenance.row_foreign)
        (some (to_entry (staged_evidence e) none InventoryProvenance.row_foreign)) none)
      (staged_evidence e) h

pub adjudicate_foreign-Stages :
    (inv : MarketInventory) (refusal : RefusalReason) (staging : Staging) (e : ExecutionEvidence)
    → Stages staging e (adjudicate_foreign inv refusal staging e)
unfolding adjudicate_foreign
adjudicate_foreign-Stages inv refusal staging e =
    let s = lookup e.execution_id staging in
    let p = get inv e.execution_id in
    elim (Bool-cases (e.qty == 0)) [
      | inl zero ↦ rw zero (left-Stages staging e PreCore.ignored_zero refl)
      | inr some_qty ↦ elim (Bool-cases (core_hit e s p none)) [
        | inl core ↦
            rw (some_qty, core)
              (left-Stages staging e
                (conflicted e refusal ConflictClass.core (build_conflict_witness s p none) p) refl)
        | inr same_core ↦ elim (Bool-cases (fee_hit e s p none)) [
          | inl fee ↦
              rw (some_qty, same_core, fee)
                (left-Stages staging e
                  (conflicted e refusal ConflictClass.fee (build_conflict_witness s p none) p) refl)
          | inr same_fee ↦
              rw (some_qty, same_core, same_fee) (foreign_choice-Stages refusal staging e s p refl)
        ]
      ]
    ]

abbrev order_witness :
    OrderRow → Option StagedPayload → Option InventoryEntry → Option FillPayload → ConflictWitness
order_witness order s p q =
    build_conflict_witness s p (flat q (λ (qq : FillPayload). some (order.ctx.client_order_id, qq)))

owned_choice-Stages :
    (staging : Staging) (e : ExecutionEvidence) (s : Option StagedPayload)
    (p : Option InventoryEntry) (q : Option FillPayload)
    → lookup e.execution_id staging ≡ s
    → Stages staging e (elim s [
      | some sp ↦ (
        doubled e RefusalReason.in_batch_duplicate p,
        insert e.execution_id (merge_staged sp e) staging,
      )
      | none ↦ (
        PreCore.admitted (staged_merged e p q),
        insert e.execution_id (staged_merged e p q) staging,
      )
    ])
owned_choice-Stages staging e (some sp) p q h =
    merged-Stages staging e (doubled e RefusalReason.in_batch_duplicate p) (merge_staged sp e) refl
owned_choice-Stages staging e none p q h =
    fresh-Stages staging e (PreCore.admitted (staged_merged e p q)) (staged_merged e p q) h

owner_choice-Stages :
    (order : OrderRow) (staging : Staging) (e : ExecutionEvidence) (p : Option InventoryEntry)
    (q : Option FillPayload) (owner : Option (ClientOrderId × InventoryEntry))
    → Stages staging e (elim owner [
      | some (o, pp) ↦ (
        conflicted e
            (RefusalReason.duplicate_other_owner o)
            ConflictClass.ownership
            (ConflictWitness.entry pp)
            (some pp),
        staging,
      )
      | none ↦ adjudicate_owned order staging e (lookup e.execution_id staging) p q
    ])
unfolding adjudicate_owned
owner_choice-Stages order staging e p q (some (o, pp)) =
    left-Stages staging e
      (conflicted e (RefusalReason.duplicate_other_owner o) ConflictClass.ownership
        (ConflictWitness.entry pp) (some pp))
      refl
owner_choice-Stages order staging e p q none =
    let s = lookup e.execution_id staging in
    elim (Bool-cases (fee_hit e s p q)) [
      | inl fee ↦ rw fee (
          left-Stages staging e
            (conflicted e RefusalReason.fee_conflict ConflictClass.fee (order_witness order s p q)
              p)
            refl)
      | inr same_fee ↦ rw same_fee (owned_choice-Stages staging e s p q refl)
    ]

pub adjudicate_own-Stages :
    (inv : MarketInventory) (order : OrderRow) (staging : Staging) (e : ExecutionEvidence)
    → Stages staging e (adjudicate_own inv order staging e)
unfolding adjudicate_own
adjudicate_own-Stages inv order staging e =
    let s = lookup e.execution_id staging in
    let p = get inv e.execution_id in
    let q = lookup e.execution_id order.ctx.applied_fills in
    elim (Bool-cases (e.qty == 0)) [
      | inl zero ↦ rw zero (left-Stages staging e PreCore.ignored_zero refl)
      | inr some_qty ↦ elim (Bool-cases (core_hit e s p q)) [
        | inl core ↦
            rw (some_qty, core)
              (left-Stages staging e
                (conflicted e (RefusalReason.conflicting_execution ConflictClass.core)
                  ConflictClass.core (order_witness order s p q) p)
                refl)
        | inr same_core ↦
            rw (some_qty, same_core)
              (owner_choice-Stages order staging e p q (other_owner order.ctx.client_order_id p))
      ]
    ]

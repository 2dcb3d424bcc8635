-- ===== src/Execution/Identity.antt =====
-- What an applied transaction leaves of an entry that the inventory holds.
use omsrs.Prelude.{
  ◌≡◌, refl, ◌⊎◌, inl, inr, Bool, true, Option, none, some, List, arith, Option-cases, or_option,
  Bool-cases, is_some, unwrap_or,
}
use omsrs.BTreeMap.{lookup}
use omsrs.Lifecycle.Types.{FillId, ClientOrderId}
use omsrs.Lifecycle.Ctx.{OrderCtx}
use omsrs.Execution.Types.{
  ExecutionEvidence, InventoryEntry, InventoryDisposition, MarketInventory, OrderRow, BatchOutcome,
  RefusalReason, OrderDisposition, ConflictFact,
}
use omsrs.Execution.Staging.{StagedPayload, same_side}
use omsrs.Execution.Inventory.{get}
use omsrs.Execution.NoRow.{Plan, norow_merged}
use omsrs.Execution.Adjudicate.{
  PreCore, Staging, foreign_known, adjudicate_foreign, adjudicate_own, adjudicate_owned,
}
use omsrs.Execution.Outcomes.{
  published_entry, refused_plan, ignored_plan, admitted_plan, admitted_upgrade, plan_of, owner_for,
  order_disposition,
}
use omsrs.Execution.Batch.{side_refused, check_side, verdicts_of}
use omsrs.Execution.Ledger.{is_ingested}
use omsrs.Execution.Verdicts.{All, verdicts_of-All}

abbrev pub Kept {ℓ} : {A : Type ℓ} → Option A → Option A → Type ℓ
Kept before after = (before ≡ none) ⊎ (after ≡ before)

-- The identity of an execution stays, and what is known of it stays known.
pub record Upgrades (p x : InventoryEntry) : Type 0 where
  pub side : x.side ≡ p.side
  pub qty : x.qty ≡ p.qty
  pub price : x.price_cents ≡ p.price_cents
  pub first_seen : x.first_seen_ts_ns ≡ p.first_seen_ts_ns
  pub source : x.source ≡ p.source
  pub provenance : x.provenance ≡ p.provenance
  pub venue : Kept p.venue_order_id x.venue_order_id
  pub claimed : Kept p.claimed_client_order_id x.claimed_client_order_id
  pub owner : Kept p.owner x.owner
  pub fee : Kept p.fee_cents x.fee_cents

pub Upgrades-refl : (p : InventoryEntry) → Upgrades p p
Upgrades-refl p = ground arith

pub Kept-or_option {ℓ} : {A : Type ℓ} (a b : Option A) → Kept a (or_option a b)
Kept-or_option none b = inl refl
Kept-or_option (some a) b = inr refl

-- What a planned entry is to the inventory's.
abbrev pub EntryKeeps : MarketInventory → FillId → Option InventoryEntry → Type 0
EntryKeeps inv id entry =
    (p x : InventoryEntry) → get inv id ≡ some p → entry ≡ some x → Upgrades p x

-- A verdict ingests only an execution that is not there, and upgrades one that is.
unfoldable pub VerdictKeeps : MarketInventory → FillId → PreCore → Type 0
VerdictKeeps inv id PreCore.ignored_zero = Unit
VerdictKeeps inv id (PreCore.admitted staged) = Unit
VerdictKeeps inv id (PreCore.refused od idisp entry conflict) =
    (is_ingested idisp ≡ true → get inv id ≡ none)
    × (idisp ≡ InventoryDisposition.upgraded → EntryKeeps inv id entry)

pub merged-Upgrades : (e : ExecutionEvidence) (p : InventoryEntry) → Upgrades p (norow_merged e p)
unfolding norow_merged
merged-Upgrades e p = ground arith

pub admitted_upgrade-Upgrades :
    (p : InventoryEntry) (s : StagedPayload) (owner : Option ClientOrderId)
    → Upgrades p (admitted_upgrade p s owner)
unfolding admitted_upgrade
admitted_upgrade-Upgrades p s owner = ground arith

pub foreign_known-Keeps :
    (inv : MarketInventory) (refusal : RefusalReason) (e : ExecutionEvidence) (p : InventoryEntry)
    → get inv e.execution_id ≡ some p
    → VerdictKeeps inv e.execution_id (foreign_known refusal e p)
unfolding foreign_known VerdictKeeps
foreign_known-Keeps inv refusal e p known = ground arith

pub adjudicate_foreign-Keeps :
    (inv : MarketInventory) (refusal : RefusalReason) (staging : Staging) (e : ExecutionEvidence)
    → VerdictKeeps inv e.execution_id (adjudicate_foreign inv refusal staging e).0
unfolding adjudicate_foreign VerdictKeeps
adjudicate_foreign-Keeps inv refusal staging e = elim (Option-cases (get inv e.execution_id)) [
  | inl absent ↦ ground (arith, absent)
  | inr (p, known) ↦ ground (arith, known, foreign_known-Keeps inv refusal e p known)
]

pub adjudicate_own-Keeps :
    (inv : MarketInventory) (order : OrderRow) (staging : Staging) (e : ExecutionEvidence)
    → VerdictKeeps inv e.execution_id (adjudicate_own inv order staging e).0
unfolding adjudicate_own adjudicate_owned VerdictKeeps
adjudicate_own-Keeps inv order staging e = ground arith

pub side_refused-Keeps :
    (inv : MarketInventory) (order : OrderRow) (staged : Option StagedPayload)
    (e : ExecutionEvidence)
    → VerdictKeeps inv e.execution_id (side_refused inv order staged e)
unfolding side_refused VerdictKeeps
side_refused-Keeps inv order staged e = ground arith

pub check_side-Keeps :
    (inv : MarketInventory) (order : OrderRow) (staging : Staging) (e : ExecutionEvidence)
    (v : PreCore)
    → VerdictKeeps inv e.execution_id v
    → VerdictKeeps inv e.execution_id (check_side inv order staging e v).0
unfolding check_side VerdictKeeps
check_side-Keeps inv order staging e PreCore.ignored_zero k = tt
check_side-Keeps inv order staging e (PreCore.refused od idisp entry conflict) k = k
check_side-Keeps inv order staging e (PreCore.admitted staged) k =
    elim (Bool-cases (same_side order.ctx.side e.side)) [
      | inl same ↦ rw same tt
      | inr other ↦ rw other (side_refused-Keeps inv order (lookup e.execution_id staging) e)
    ]

-- All verdicts of a batch.
abbrev pub AllKeep : MarketInventory → List (ExecutionEvidence × PreCore) → Type 0
AllKeep inv = All (VerdictKeeps inv)

pub verdicts_of-Keeps :
    (inv : MarketInventory) (order : OrderRow) (es : List ExecutionEvidence)
    → AllKeep inv (verdicts_of inv order es).0
verdicts_of-Keeps inv order es =
    verdicts_of-All (VerdictKeeps inv) inv order (check_side-Keeps inv order)
      (adjudicate_foreign-Keeps inv) (adjudicate_own-Keeps inv order) es

-- What a plan stores is an upgrade of what is there.
unfoldable pub PlanKeeps : MarketInventory → Plan → Type 0
PlanKeeps inv plan = EntryKeeps inv plan.outcome.evidence.execution_id plan.entry

pub refused_plan-Keeps :
    (inv : MarketInventory) (e : ExecutionEvidence) (od : OrderDisposition)
    (idisp : InventoryDisposition) (entry : Option InventoryEntry) (conflict : Option ConflictFact)
    (staged : Option StagedPayload)
    → VerdictKeeps inv e.execution_id (PreCore.refused od idisp entry conflict)
    → PlanKeeps inv (refused_plan e od idisp entry conflict staged)
unfolding VerdictKeeps PlanKeeps refused_plan published_entry
refused_plan-Keeps inv e od (InventoryDisposition.ingested p) entry conflict staged k =
    λ q x known h. cc (k.0 refl, known)
refused_plan-Keeps inv e od InventoryDisposition.upgraded entry conflict staged k = k.1 refl
refused_plan-Keeps inv e od InventoryDisposition.duplicate entry conflict staged k =
    λ q x known h. cc h
refused_plan-Keeps inv e od InventoryDisposition.unchanged entry conflict staged k =
    λ q x known h. cc h
refused_plan-Keeps inv e od (InventoryDisposition.conflict c) entry conflict staged k =
    λ q x known h. cc h

pub admitted_plan-Keeps :
    (inv : MarketInventory) (order : OrderRow) (foreign : Bool) (ctx : OrderCtx)
    (outcome : BatchOutcome) (e : ExecutionEvidence) (s : StagedPayload)
    → PlanKeeps inv (admitted_plan inv order foreign ctx outcome e s)
unfolding PlanKeeps admitted_plan
admitted_plan-Keeps inv order foreign ctx outcome e s =
    elim (Option-cases (get inv e.execution_id)) [
      | inl absent ↦ λ p x known h. ground (arith, absent, known, h)
      | inr (q, found) ↦ λ p x known h. ground (
        arith,
        found,
        known,
        h,
        admitted_upgrade-Upgrades q s (
            owner_for
              (order_disposition outcome (lookup e.execution_id order.ctx.applied_fills)
                (lookup e.execution_id ctx.applied_fills))
              order.ctx.client_order_id foreign
              (is_some (lookup e.execution_id ctx.applied_fills))),
      )
    ]

pub plan_of-Keeps :
    (inv : MarketInventory) (order : OrderRow) (foreign : Bool) (staging : Staging) (ctx : OrderCtx)
    (outcome : BatchOutcome) (e : ExecutionEvidence) (v : PreCore)
    → VerdictKeeps inv e.execution_id v
    → PlanKeeps inv (plan_of inv order foreign staging ctx outcome (e, v))
unfolding plan_of PlanKeeps ignored_plan
plan_of-Keeps inv order foreign staging ctx outcome e PreCore.ignored_zero k = λ p x known h. cc h
plan_of-Keeps inv order foreign staging ctx outcome e (PreCore.refused od idisp entry conflict) k =
    refused_plan-Keeps inv e od idisp entry conflict (lookup e.execution_id staging) k
plan_of-Keeps inv order foreign staging ctx outcome e (PreCore.admitted staged) k =
    admitted_plan-Keeps inv order foreign ctx outcome e
      (unwrap_or (lookup e.execution_id staging) staged)

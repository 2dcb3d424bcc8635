-- ===== src/Execution/Coherence.antt =====
-- The outcomes of a batch tell what the batch plans.
use omsrs.Prelude.{
  ◌≡◌, refl, sym, List, [], ◌∷◌, Bool, true, false, Option, some, is_some, arith, ◌||◌,
  if◌then◌else◌, Option-cases, inl, inr, unwrap_or,
}
use omsrs.BTreeMap.{BTreeMap, lookup, insert, contains_key, lookup-insert}
use omsrs.Lifecycle.Types.{FillId}
use omsrs.Lifecycle.Ctx.{OrderCtx}
use omsrs.Execution.Types.{
  ExecutionEvidence, InventoryEntry, ConflictFact, MarketInventory, InventoryDisposition,
  OrderDisposition, OrderRow, RefusalReason, BatchOutcome,
}
use omsrs.Execution.Staging.{StagedPayload}
use omsrs.Execution.Inventory.{get}
use omsrs.Execution.NoRow.{Plan}
use omsrs.Execution.Outcomes.{
  plans_entry, published_entry, refused_plan, ignored_plan, admitted_plan, plan_of,
}
use omsrs.Execution.Adjudicate.{
  PreCore, Staging, adjudicate_foreign, adjudicate_own, adjudicate_owned, foreign_known,
}
use omsrs.Execution.Batch.{side_refused, check_side, verdicts_of, plans_of}
use omsrs.Execution.Identity.{VerdictKeeps, AllKeep}
use omsrs.Execution.Ledger.{Coherent, is_ingested}
use omsrs.Execution.Planned.{AllCoherent, Once}
use omsrs.Execution.Stages.{takes}
use omsrs.Execution.Staged.{TakesOnce}
use omsrs.Execution.Verdicts.{All, verdicts_of-All}
use mathlib.Core.Path.{subst}

abbrev is_conflict : InventoryDisposition → Bool
is_conflict (InventoryDisposition.conflict _) = true
is_conflict _ = false

-- An entry stands beside a disposition that stores it, and a conflict only beside that of one.
unfoldable pub Tells : FillId → PreCore → Type 0
Tells id PreCore.ignored_zero = Unit
Tells id (PreCore.admitted staged) = Unit
Tells id (PreCore.refused od idisp entry conflict) =
    (plans_entry idisp ≡ true → is_some entry ≡ true)
    × ((c : ConflictFact) → conflict ≡ some c → c.execution_id ≡ id)
    × (is_some conflict ≡ true → is_conflict idisp ≡ true)

foreign_known-Tells :
    (refusal : RefusalReason) (e : ExecutionEvidence) (p : InventoryEntry)
    → Tells e.execution_id (foreign_known refusal e p)
unfolding foreign_known Tells
foreign_known-Tells refusal e p = ground arith

adjudicate_foreign-Tells :
    (inv : MarketInventory) (refusal : RefusalReason) (staging : Staging) (e : ExecutionEvidence)
    → Tells e.execution_id (adjudicate_foreign inv refusal staging e).0
unfolding adjudicate_foreign foreign_known Tells
adjudicate_foreign-Tells inv refusal staging e = ground arith

adjudicate_own-Tells :
    (inv : MarketInventory) (order : OrderRow) (staging : Staging) (e : ExecutionEvidence)
    → Tells e.execution_id (adjudicate_own inv order staging e).0
unfolding adjudicate_own adjudicate_owned Tells
adjudicate_own-Tells inv order staging e = ground arith

check_side-Tells :
    (inv : MarketInventory) (order : OrderRow) (staging : Staging) (e : ExecutionEvidence)
    (v : PreCore)
    → Tells e.execution_id v
    → Tells e.execution_id (check_side inv order staging e v).0
unfolding check_side side_refused Tells
check_side-Tells inv order staging e PreCore.ignored_zero k = tt
check_side-Tells inv order staging e (PreCore.refused od idisp entry conflict) k = k
check_side-Tells inv order staging e (PreCore.admitted staged) k = ground arith

refused_plan-Coherent :
    (inv : MarketInventory) (e : ExecutionEvidence) (od : OrderDisposition)
    (idisp : InventoryDisposition) (entry : Option InventoryEntry) (conflict : Option ConflictFact)
    (staged : Option StagedPayload)
    → VerdictKeeps inv e.execution_id (PreCore.refused od idisp entry conflict)
    → Tells e.execution_id (PreCore.refused od idisp entry conflict)
    → Coherent inv e.execution_id (refused_plan e od idisp entry conflict staged)
unfolding VerdictKeeps Tells refused_plan published_entry get
refused_plan-Coherent inv e od (InventoryDisposition.ingested p) entry conflict staged k t =
    ground (arith, k.0 refl, t.0, t.1, t.2)
refused_plan-Coherent inv e od InventoryDisposition.upgraded entry conflict staged k t =
    ground (arith, t.0, t.1, t.2)
refused_plan-Coherent inv e od InventoryDisposition.duplicate entry conflict staged k t =
    ground (arith, t.1, t.2)
refused_plan-Coherent inv e od InventoryDisposition.unchanged entry conflict staged k t =
    ground (arith, t.1, t.2)
refused_plan-Coherent inv e od (InventoryDisposition.conflict c) entry conflict staged k t =
    ground (arith, t.1, t.2)

admitted_plan-Coherent :
    (inv : MarketInventory) (order : OrderRow) (foreign : Bool) (ctx : OrderCtx)
    (outcome : BatchOutcome) (e : ExecutionEvidence) (s : StagedPayload)
    → Coherent inv e.execution_id (admitted_plan inv order foreign ctx outcome e s)
unfolding admitted_plan get
admitted_plan-Coherent inv order foreign ctx outcome e s =
    elim (Option-cases (lookup e.execution_id inv.entries)) [
      | inl absent ↦ ground (arith, absent)
      | inr (q, found) ↦ ground (arith, found)
    ]

plan_of-Coherent :
    (inv : MarketInventory) (order : OrderRow) (foreign : Bool) (staging : Staging) (ctx : OrderCtx)
    (outcome : BatchOutcome) (e : ExecutionEvidence) (v : PreCore)
    → VerdictKeeps inv e.execution_id v
    → Tells e.execution_id v
    → Coherent inv e.execution_id (plan_of inv order foreign staging ctx outcome (e, v))
unfolding plan_of ignored_plan
plan_of-Coherent inv order foreign staging ctx outcome e PreCore.ignored_zero k t = ground arith
plan_of-Coherent inv order foreign staging ctx outcome e (PreCore.refused od idisp entry conflict) k
      t =
    refused_plan-Coherent inv e od idisp entry conflict (lookup e.execution_id staging) k t
plan_of-Coherent inv order foreign staging ctx outcome e (PreCore.admitted staged) k t =
    admitted_plan-Coherent inv order foreign ctx outcome e
      (unwrap_or (lookup e.execution_id staging) staged)

-- All verdicts of a batch.
abbrev pub AllTell : List (ExecutionEvidence × PreCore) → Type 0
AllTell = All Tells

pub verdicts_of-AllTell :
    (inv : MarketInventory) (order : OrderRow) (es : List ExecutionEvidence)
    → AllTell (verdicts_of inv order es).0
verdicts_of-AllTell inv order es =
    verdicts_of-All Tells inv order (check_side-Tells inv order) (adjudicate_foreign-Tells inv)
      (adjudicate_own-Tells inv order) es

-- The plans of a batch.
module _ (inv : MarketInventory) (order : OrderRow) (foreign : Bool) (staging : Staging)
    (ctx : OrderCtx) (outcome : BatchOutcome) where
  abbrev plan : ExecutionEvidence × PreCore → Plan
  plan = plan_of inv order foreign staging ctx outcome

  plan_of-takes :
      (e : ExecutionEvidence) (v : PreCore)
      → is_ingested (plan (e, v)).outcome.inventory ≡ true
      → takes v ≡ true
  unfolding plan_of ignored_plan refused_plan
  plan_of-takes e PreCore.ignored_zero h = h
  plan_of-takes e (PreCore.refused od (InventoryDisposition.ingested _) entry conflict) h = refl
  plan_of-takes e (PreCore.refused od InventoryDisposition.upgraded entry conflict) h = h
  plan_of-takes e (PreCore.refused od InventoryDisposition.duplicate entry conflict) h = h
  plan_of-takes e (PreCore.refused od InventoryDisposition.unchanged entry conflict) h = h
  plan_of-takes e (PreCore.refused od (InventoryDisposition.conflict _) entry conflict) h = h
  plan_of-takes e (PreCore.admitted staged) h = refl

  pub plans_of-AllCoherent :
      (pre : List (ExecutionEvidence × PreCore))
      → AllKeep inv pre
      → AllTell pre
      → AllCoherent inv (plans_of plan pre)
  unfolding plans_of
  plans_of-AllCoherent [] k t = tt
  plans_of-AllCoherent ((e, v) ∷ pre) k t =
      let c = plan_of-Coherent inv order foreign staging ctx outcome e v k.0 t.0 in
      (
        subst (λ (i : FillId). Coherent inv i (plan (e, v))) (sym c.evidence) c,
        plans_of-AllCoherent pre k.1 t.1,
      )

  pub plans_of-Once :
      (pre : List (ExecutionEvidence × PreCore)) (m seen : BTreeMap (Unit {0}))
      → AllKeep inv pre
      → AllTell pre
      → TakesOnce seen pre
      → ((j : FillId)
          → contains_key j m ≡ true
          → contains_key j seen || contains_key j inv.entries ≡ true)
      → Once m (plans_of plan pre)
  unfolding plans_of TakesOnce
  plans_of-Once [] m seen k t o h = tt
  plans_of-Once ((e, v) ∷ pre) m seen k t (new, o) h =
      let p = plan (e, v) in
      let c = plan_of-Coherent inv order foreign staging ctx outcome e v k.0 t.0 in
      let id = p.outcome.evidence.execution_id in
      (
        λ i. ground (arith, c.first i, c.evidence, new (plan_of-takes e v i), h id),
        plans_of-Once pre (if is_ingested p.outcome.inventory then insert id tt m else m)
            (if takes v then insert e.execution_id tt seen else seen) k.1 t.1 o
            (λ j g. ground (
              arith,
              c.evidence,
              plan_of-takes e v,
              h j,
              g,
              lookup-insert id j tt m,
              lookup-insert e.execution_id j tt seen,
            )),
      )

-- ===== src/Execution/Retained.antt =====
-- The entries of an inventory after a batch is applied.
use omsrs.Prelude.{
  ℕ, ◌≡◌, refl, sym, ◌∙◌, inl, inr, Option, some, List, [], ◌∷◌, arith, same_text, eq_iff,
  Option-cases, Bool-cases,
}
use Prim.Native.Nat.{Ordering}
use Prim.Native.String.{compare}
use mathlib.Core.Path.{subst}
use omsrs.Prelude.Words.{saturating_add}
use omsrs.Execution.Stale.{apply_execution_txn-Applied}
use omsrs.BTreeMap.{BTreeMap, insert, lookup-insert}
use omsrs.Lifecycle.Types.{FillId}
use omsrs.Lifecycle.Events.{OrderEvent}
use omsrs.Execution.Types.{
  ExecutionEvidence, InventoryEntry, MarketInventory, OrderRow, ConflictFact, ExecutionTransaction,
  ok,
}
use omsrs.Execution.Inventory.{get}
use omsrs.Execution.NoRow.{Plan}
use omsrs.Execution.Adjudicate.{PreCore}
use omsrs.Execution.Batch.{
  verdicts_of, plans_of, plan_entries, batch_of, batch_txn, prepare_execution_batch,
}
use omsrs.Execution.Commit.{apply_entries, apply_conflicts, apply_planned, apply_execution_txn}
use omsrs.Execution.Identity.{
  Upgrades, Upgrades-refl, VerdictKeeps, AllKeep, verdicts_of-Keeps, PlanKeeps, plan_of-Keeps,
}

-- Entries that are planned, each an upgrade of what is there under its id.
abbrev AllUpgrade : MarketInventory → BTreeMap InventoryEntry → Type 0
AllUpgrade inv [] = Unit
AllUpgrade inv ((id, x) ∷ m) =
    ((p : InventoryEntry) → get inv id ≡ some p → Upgrades p x) × AllUpgrade inv m

insert-AllUpgrade :
    (inv : MarketInventory) (id : FillId) (x : InventoryEntry) (m : BTreeMap InventoryEntry)
    → ((p : InventoryEntry) → get inv id ≡ some p → Upgrades p x)
    → AllUpgrade inv m
    → AllUpgrade inv (insert id x m)
unfolding insert
insert-AllUpgrade inv id x [] h k = (h, tt)
insert-AllUpgrade inv id x ((j, y) ∷ m) h k =
    elim (compare id j)
      as (λ o. AllUpgrade inv (elim o [
        | Ordering.lt ↦ (id, x) ∷ (j, y) ∷ m
        | Ordering.eq ↦ (id, x) ∷ m
        | Ordering.gt ↦ (j, y) ∷ insert id x m
      ])) [
        | Ordering.lt ↦ (h, k)
        | Ordering.eq ↦ (h, k.1)
        | Ordering.gt ↦ (k.0, insert-AllUpgrade inv id x m h k.1)
      ]

plan_entries-AllUpgrade :
    (inv : MarketInventory) (plan : ExecutionEvidence × PreCore → Plan)
    (sound : (e : ExecutionEvidence) (v : PreCore)
      → VerdictKeeps inv e.execution_id v
      → PlanKeeps inv (plan (e, v)))
    (pre : List (ExecutionEvidence × PreCore)) (m : BTreeMap InventoryEntry)
    → AllUpgrade inv m
    → AllKeep inv pre
    → AllUpgrade inv (plan_entries m (plans_of plan pre))
unfolding plan_entries plans_of PlanKeeps
plan_entries-AllUpgrade inv plan sound [] m u k = u
plan_entries-AllUpgrade inv plan sound ((e, v) ∷ pre) m u k =
    elim (Option-cases (plan (e, v)).entry) [
      | inl quiet ↦ rw (quiet, plan_entries) (plan_entries-AllUpgrade inv plan sound pre m u k.1)
      | inr (x, stored) ↦
          rw (stored, plan_entries)
            (plan_entries-AllUpgrade inv plan sound pre
              (insert (plan (e, v)).outcome.evidence.execution_id x m)
              (insert-AllUpgrade inv (plan (e, v)).outcome.evidence.execution_id x m
                (λ p known. sound e v k.0 p x known stored) u)
              k.1)
    ]

-- Every entry of the first inventory stands in the second one, upgraded or as it was.
abbrev Retains : MarketInventory → MarketInventory → Type 0
Retains inv after =
    (id : FillId) (p : InventoryEntry)
    → get inv id ≡ some p
    → (x : InventoryEntry) × (get after id ≡ some x) × Upgrades p x

insert-Retains :
    (inv cur : MarketInventory) (k : FillId) (y : InventoryEntry) (g : ℕ)
    → ((p : InventoryEntry) → get inv k ≡ some p → Upgrades p y)
    → Retains inv cur
    → Retains inv (record cur { entries = insert k y cur.entries; generation = g })
unfolding get
insert-Retains inv cur k y g h r id p known = elim (Bool-cases (same_text k id)) [
  | inl hit ↦ (y, lookup-insert k id y cur.entries ∙ rw hit, h p (rw ((eq_iff k id).0 hit) known))
  | inr miss ↦
      let (x, found, up) = r id p known in (x, lookup-insert k id y cur.entries ∙ rw miss found, up)
]

apply_entries-Retains :
    (inv : MarketInventory) (planned : BTreeMap InventoryEntry) (cur : MarketInventory)
    → AllUpgrade inv planned
    → Retains inv cur
    → Retains inv (apply_entries planned cur)
unfolding apply_entries
apply_entries-Retains inv [] cur u r = r
apply_entries-Retains inv ((k, y) ∷ planned) cur u r =
    apply_entries-Retains inv planned
      (record cur {
        entries = insert k y cur.entries;
        generation = saturating_add cur.generation 1;
      })
      u.1 (insert-Retains inv cur k y (saturating_add cur.generation 1) u.0 r)

get-apply_conflicts :
    (planned : BTreeMap ConflictFact) (cur : MarketInventory) (id : FillId)
    → get (apply_conflicts planned cur) id ≡ get cur id
unfolding apply_conflicts get
get-apply_conflicts [] cur id = refl
get-apply_conflicts ((k, c) ∷ planned) cur id =
    get-apply_conflicts planned
      (record cur {
        conflicts = insert k c cur.conflicts;
        generation = saturating_add cur.generation 1;
      })
      id

apply_planned-Retains :
    (inv : MarketInventory) (txn : ExecutionTransaction)
    → AllUpgrade inv txn.planned_entries
    → Retains inv (apply_planned txn inv)
unfolding apply_planned
apply_planned-Retains inv txn u id p known =
    let (x, found, up) =
      apply_entries-Retains inv txn.planned_entries inv u (λ j q h. (q, h, Upgrades-refl q)) id p
        known in
    (x, get-apply_conflicts txn.planned_conflicts _ id ∙ found, up)

batch_of-AllUpgrade :
    (order : OrderRow) (inv : MarketInventory) (event : OrderEvent) (es : List ExecutionEvidence)
    → AllUpgrade inv (batch_of order inv event es).planned_entries
unfolding batch_of batch_txn
batch_of-AllUpgrade order inv event es =
    plan_entries-AllUpgrade inv _ (λ e v k. plan_of-Keeps inv order _ _ _ _ e v k)
      (verdicts_of inv order es).0 [] tt (verdicts_of-Keeps inv order es)

-- If a batch that was prepared against an inventory is applied to it, with any row, each entry of
-- the inventory is still there: its side, quantity, price, first timestamp, source and provenance
-- are unchanged, and its venue id, claimed order, owner and fee are unchanged where they were
-- known.
pub prepare_execution_batch-Upgrades :
    (order target : OrderRow) (inv after : MarketInventory) (event : OrderEvent)
    (es : List ExecutionEvidence) (txn : ExecutionTransaction) (row : Option OrderRow) (id : FillId)
    (p : InventoryEntry)
    → prepare_execution_batch order inv event es ≡ ok txn
    → apply_execution_txn txn (some target) inv ≡ ok (row, after)
    → get inv id ≡ some p
    → (x : InventoryEntry) × (get after id ≡ some x) × Upgrades p x
unfolding prepare_execution_batch
prepare_execution_batch-Upgrades order target inv after event es txn row id p h k known =
    let e : txn ≡ batch_of order inv event es = ground arith in
    let a = apply_execution_txn-Applied txn (some target) row inv after k in
    let planned =
      subst (λ t. AllUpgrade inv t.planned_entries) (sym e)
        (batch_of-AllUpgrade order inv event es) in
    subst (λ i. (x : InventoryEntry) × (get i id ≡ some x) × Upgrades p x) (sym a.inventory_written)
      (apply_planned-Retains inv txn planned id p known)

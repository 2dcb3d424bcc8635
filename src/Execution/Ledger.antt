-- ===== src/Execution/Ledger.antt =====
-- The inventory that `rebuild` finds in the journal of executions without a row is the live one.
use omsrs.Prelude.{
  ℕ, ◌<◌, ◌≡◌, refl, inl, inr, Bool, true, false, ◌||◌, Option, none, some, [], ◌∷◌, arith, length,
  is_some, if◌then◌else◌, Option-cases,
}
use omsrs.Prelude.Words.{saturating_add, u64_limit}
use omsrs.Equality.{same_refl}
use omsrs.BTreeMap.{BTreeMap, lookup, insert, contains_key, lookup-insert}
use omsrs.Lifecycle.Types.{FillId}
use omsrs.Execution.Types.{
  ExecutionEvidence, InventoryEntry, ConflictFact, MarketInventory, InventoryDisposition,
  ExecutionTxnRecord, ok, LedgerId-discrete,
}
use omsrs.Execution.Inventory.{Fold, TxnFold, fold_outcome, fold_outcomes, fold_txn, open_txn, get}
use omsrs.Execution.NoRow.{Plan, norow_plan, norow_known, norow_conflict, norow_txn, is_journaled}
use omsrs.Execution.Outcomes.{plans_entry}
use omsrs.Execution.Commit.{apply_entries, apply_conflicts, apply_planned}

-- The fold of the journal and the live inventory answer every question alike.
pub record Mirrors (f : Fold) (inv : MarketInventory) : Type 0 where
  pub entries : (id : FillId) → lookup id f.entries ≡ lookup id inv.entries
  pub conflicts : (id : FillId) → lookup id f.conflicts ≡ lookup id inv.conflicts
  pub generation : f.generation ≡ inv.generation
  pub ingested :
      (id : FillId) → contains_key id f.ingested_ids ≡ true → contains_key id inv.entries ≡ true

abbrev pub is_ingested : InventoryDisposition → Bool
is_ingested (InventoryDisposition.ingested _) = true
is_ingested _ = false

-- The outcome that is journaled tells what is planned.
pub record Coherent (inv : MarketInventory) (id : FillId) (plan : Plan) : Type 0 where
  pub evidence : plan.outcome.evidence.execution_id ≡ id
  pub entry :
      plan.entry ≡ (if plans_entry plan.outcome.inventory then plan.outcome.entry_after else none)
  pub conflict : plan.conflict ≡ plan.outcome.conflict
  pub stored : plans_entry plan.outcome.inventory ≡ true → is_some plan.outcome.entry_after ≡ true
  pub named : (c : ConflictFact) → plan.conflict ≡ some c → c.execution_id ≡ id
  pub first : is_ingested plan.outcome.inventory ≡ true → lookup id inv.entries ≡ none
  pub silent :
      is_journaled plan.outcome ≡ false → is_some plan.entry || is_some plan.conflict ≡ false

pub norow_known-Coherent :
    (inv : MarketInventory) (e : ExecutionEvidence) (p : InventoryEntry)
    → Coherent inv e.execution_id (norow_known e p)
unfolding norow_known norow_conflict
norow_known-Coherent inv e p = ground arith

pub norow_plan-Coherent :
    (inv : MarketInventory) (e : ExecutionEvidence) → Coherent inv e.execution_id (norow_plan inv e)
unfolding norow_plan get
norow_plan-Coherent inv e = elim (Option-cases (lookup e.execution_id inv.entries)) [
  | inl unknown ↦ ground (arith, unknown)
  | inr (p, known) ↦ ground (arith, known, norow_known-Coherent inv e p)
]

abbrev pub put {ℓ} : {V : Type ℓ} → FillId → Option V → BTreeMap V → BTreeMap V
put id none m = m
put id (some v) m = insert id v m

abbrev pub one {ℓ} : {V : Type ℓ} → Option V → ℕ
one none = 0
one (some v) = 1

pub lookup-put {ℓ} :
    {V : Type ℓ} (id j : FillId) (o : Option V) (m n : BTreeMap V)
    → lookup j m ≡ lookup j n
    → lookup j (put id o m) ≡ lookup j (put id o n)
lookup-put id j none m n h = h
lookup-put id j (some v) m n h = ground (arith, lookup-insert id j v m, lookup-insert id j v n, h)

-- The live inventory after an execution.
abbrev pub after_plan : MarketInventory → FillId → Plan → MarketInventory
after_plan inv id plan = record inv {
  entries = put id plan.entry inv.entries;
  conflicts = put id plan.conflict inv.conflicts;
  generation = saturating_add (saturating_add inv.generation (one plan.entry)) (one plan.conflict);
}

pub apply-norow_txn :
    (inv : MarketInventory) (e : ExecutionEvidence) (plan : Plan)
    → inv.generation < u64_limit
    → apply_planned (norow_txn inv e plan) inv ≡ after_plan inv e.execution_id plan
unfolding apply_planned norow_txn apply_entries apply_conflicts
apply-norow_txn inv e plan h = ground arith

-- The fold after the outcome of an execution.
abbrev pub noted : TxnFold → FillId → Plan → TxnFold
noted t id plan = record {
  fold = record (t.fold) {
    entries = put id plan.entry t.fold.entries;
    conflicts = put id plan.conflict t.fold.conflicts;
    ingested_ids =
        if is_ingested plan.outcome.inventory
        then insert id tt t.fold.ingested_ids
        else t.fold.ingested_ids;
  };
  mutated_entry_ids = put id (if is_some plan.entry then some tt else none) t.mutated_entry_ids;
  conflict_ids = put id (if is_some plan.conflict then some tt else none) t.conflict_ids;
}

pub fold_outcome-noted :
    (inv : MarketInventory) (id : FillId) (plan : Plan) (t : TxnFold)
    → Coherent inv id plan
    → (is_ingested plan.outcome.inventory ≡ true → contains_key id t.fold.ingested_ids ≡ false)
    → fold_outcome t plan.outcome ≡ ok (noted t id plan)
unfolding fold_outcome
fold_outcome-noted inv id plan t c new = elim (Option-cases plan.conflict) [
  | inl quiet ↦ ground (arith, quiet, c.evidence, c.entry, c.conflict, c.stored, new)
  | inr (fact, clash) ↦
      ground (arith, clash, c.named fact clash, c.evidence, c.entry, c.conflict, c.stored, new)
]

abbrev pub noted_fold : Fold → FillId → Plan → Fold
noted_fold f id plan = record (noted (open_txn f) id plan).fold {
  generation = saturating_add (saturating_add f.generation (one plan.entry)) (one plan.conflict);
}

pub length-put_nil {ℓ} :
    {V : Type ℓ} (id : FillId) (o : Option V)
    → length (put id (if is_some o then some (tt {0}) else none) []) ≡ one o
unfolding insert
length-put_nil id none = refl
length-put_nil id (some v) = refl

abbrev pub execution_record : MarketInventory → Plan → ExecutionTxnRecord
execution_record inv plan = record {
  ledger = inv.ledger;
  inventory_generation_before = inv.generation;
  executions = plan.outcome ∷ [];
  order = none;
}

pub fold_txn-noted :
    (inv : MarketInventory) (id : FillId) (plan : Plan) (f : Fold)
    → Coherent inv id plan
    → Mirrors f inv
    → fold_txn inv.ledger f (execution_record inv plan) ≡ ok (noted_fold f id plan)
unfolding fold_txn fold_outcomes
fold_txn-noted inv id plan f c m =
    let new : is_ingested plan.outcome.inventory ≡ true → contains_key id f.ingested_ids ≡ false =
      λ h. ground (arith, m.ingested id, c.first h) in
    ground (
      arith,
      same_refl LedgerId-discrete inv.ledger,
      fold_outcome-noted inv id plan (open_txn f) c new,
      length-put_nil id plan.entry,
      length-put_nil id plan.conflict,
    )

pub is_some-put {ℓ} :
    {V : Type ℓ} (id j : FillId) (o : Option V) (m : BTreeMap V)
    → is_some (lookup j m) ≡ true
    → is_some (lookup j (put id o m)) ≡ true
is_some-put id j none m h = h
is_some-put id j (some v) m h = ground (arith, lookup-insert id j v m, h)

-- The fold and the live inventory move together.
pub noted-Mirrors :
    (inv : MarketInventory) (id : FillId) (plan : Plan) (f : Fold)
    → Coherent inv id plan
    → Mirrors f inv
    → Mirrors (noted_fold f id plan) (after_plan inv id plan)
noted-Mirrors inv id plan f c m = record {
  entries = λ j. lookup-put id j plan.entry f.entries inv.entries (m.entries j);
  conflicts = λ j. lookup-put id j plan.conflict f.conflicts inv.conflicts (m.conflicts j);
  generation = ground (arith, m.generation);
  ingested = λ j h. elim (Option-cases plan.entry) [
    | inl quiet ↦
        ground (arith, quiet, c.entry, c.stored, lookup-insert id j tt f.ingested_ids, m.ingested j)
    | inr (x, e) ↦ ground (
      arith,
      e,
      c.entry,
      c.stored,
      lookup-insert id j tt f.ingested_ids,
      lookup-insert id j x inv.entries,
      m.ingested j,
    )
  ];
}

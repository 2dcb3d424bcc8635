-- ===== src/Execution/Ingest.antt =====
-- Executions that come to a market one attempt after the other, and the rebuild of its inventory.
use omsrs.Prelude.{
  ◌<◌, ◌≡◌, refl, sym, ap, ◌∙◌, ◌⊎◌, inl, inr, false, Option, none, some, List, [], ◌∷◌, ◌++◌,
  arith, if◌then◌else◌, Bool-cases,
}
use omsrs.Prelude.Words.{u64_limit}
use omsrs.Execution.Evidence.{evidence_ledger}
use omsrs.Equality.{same, same_refl}
use omsrs.BTreeMap.{lookup}
use omsrs.Lifecycle.Types.{FillId}
use omsrs.Execution.Types.{
  LedgerId, ExecutionEvidence, MarketInventory, JournalLine, ExecutionTransaction, PrepareError, ok,
  OrderRow, Result-cases, err, LedgerId-discrete,
}
use omsrs.Execution.Inventory.{
  Fold, fold_lines, fold_txn, no_fold, new_inventory, get, rebuild_inventory, folded_inventory,
}
use omsrs.Execution.NoRow.{
  Plan, norow_plan, norow_txn, execution_line, prepare_execution_norow, is_journaled,
}
use omsrs.Execution.Commit.{apply_execution_txn}
use omsrs.Execution.Ledger.{
  Mirrors, Coherent, norow_plan-Coherent, after_plan, apply-norow_txn, noted_fold, execution_record,
  fold_txn-noted, noted-Mirrors,
}
use omsrs.Lifecycle.Events.{OrderEvent}
use omsrs.Execution.Folding.{Folded, same-Folded}
use omsrs.Execution.Trade.{trade, trade-Folded}
use mathlib.Core.Path.{subst}

-- What the evidences of a market do to its inventory, and the lines that the shell journals.
abbrev pub ingest : MarketInventory → ExecutionEvidence → MarketInventory × List JournalLine
ingest inv e = elim (prepare_execution_norow inv e) [
  | err _ ↦ (inv, [])
  | ok txn ↦ elim (apply_execution_txn txn none inv) [
    | err _ ↦ (inv, [])
    | ok (_, after) ↦ (after, elim txn.journal [ none ↦ [] | some line ↦ line ∷ [] ])
  ]
]

-- An evidence leaves the inventory and the journal, or its plan is applied and journaled.
abbrev Ingested : MarketInventory → ExecutionEvidence → MarketInventory × List JournalLine → Type 0
Ingested inv e o =
    let plan = norow_plan inv e in
    (o ≡ (inv, []))
    ⊎ (o ≡ (
      after_plan inv e.execution_id plan,
      JournalLine.execution_txn (execution_record inv plan) ∷ [],
    ))

apply_norow-ok :
    (inv : MarketInventory) (e : ExecutionEvidence) (plan : Plan)
    → inv.generation < u64_limit
    → apply_execution_txn (norow_txn inv e plan) none inv
      ≡ ok (none, after_plan inv e.execution_id plan)
unfolding apply_execution_txn norow_txn
apply_norow-ok inv e plan g =
    ground (arith, same_refl LedgerId-discrete inv.ledger, apply-norow_txn inv e plan g)

silent-after_plan :
    (inv : MarketInventory) (id : FillId) (plan : Plan)
    → Coherent inv id plan
    → inv.generation < u64_limit
    → is_journaled plan.outcome ≡ false
    → after_plan inv id plan ≡ inv
silent-after_plan inv id plan c g h = ground (arith, c.silent h)

journal-norow :
    (inv : MarketInventory) (e : ExecutionEvidence) (plan : Plan)
    → (norow_txn inv e plan).journal ≡ (
        if is_journaled plan.outcome
        then some (JournalLine.execution_txn (execution_record inv plan))
        else none)
unfolding norow_txn execution_line
journal-norow inv e plan = ground arith

ingest-refused :
    (inv : MarketInventory) (e : ExecutionEvidence) (reason : PrepareError)
    → prepare_execution_norow inv e ≡ err reason
    → ingest inv e ≡ (inv, [])
ingest-refused inv e reason h = rw (h, ingest)

ingest-accepted :
    (inv after : MarketInventory) (e : ExecutionEvidence) (txn : ExecutionTransaction)
    (line : Option JournalLine)
    → prepare_execution_norow inv e ≡ ok txn
    → apply_execution_txn txn none inv ≡ ok (none, after)
    → txn.journal ≡ line
    → ingest inv e ≡ (after, elim line [ none ↦ [] | some l ↦ l ∷ [] ])
ingest-accepted inv after e txn line h k j = rw (h, ingest) (rw (k) (rw j))

prepare-norow :
    (inv : MarketInventory) (e : ExecutionEvidence)
    → (prepare_execution_norow inv e ≡ ok (norow_txn inv e (norow_plan inv e)))
      ⊎ (prepare_execution_norow inv e
          ≡ err (PrepareError.foreign_ledger inv.ledger (evidence_ledger e)))
unfolding prepare_execution_norow
prepare-norow inv e = elim (Bool-cases (same LedgerId-discrete (evidence_ledger e) inv.ledger)) [
  | inr foreign ↦ inr (rw foreign)
  | inl own ↦ inl (rw own)
]

ingest-norow :
    (inv : MarketInventory) (e : ExecutionEvidence)
    → inv.generation < u64_limit
    → Ingested inv e (ingest inv e)
ingest-norow inv e g =
    let plan = norow_plan inv e in
    let id = e.execution_id in
    let c : Coherent inv id plan = norow_plan-Coherent inv e in
    elim (prepare-norow inv e) [
      | inr foreign ↦ inl (ingest-refused inv e _ foreign)
      | inl prepared ↦ elim (Bool-cases (is_journaled plan.outcome)) [
        | inl loud ↦ inr (
            ingest-accepted inv (after_plan inv id plan) e (norow_txn inv e plan)
              (some (JournalLine.execution_txn (execution_record inv plan))) prepared
              (apply_norow-ok inv e plan g) (ground (arith, loud, journal-norow inv e plan)))
        | inr quiet ↦ inl (
            ingest-accepted inv inv e (norow_txn inv e plan) none prepared
              (apply_norow-ok inv e plan g
                ∙ ap (λ (i : MarketInventory). ok (none, i))
                    (silent-after_plan inv id plan c g quiet))
              (ground (arith, quiet, journal-norow inv e plan)))
      ]
    ]

fold_lines-nil : (ledger : LedgerId) (f : Fold) → fold_lines ledger f [] ≡ ok f
unfolding fold_lines
fold_lines-nil ledger f = refl

fold_lines-append :
    (ledger : LedgerId) (a b : List JournalLine) (f f' : Fold)
    → fold_lines ledger f a ≡ ok f'
    → fold_lines ledger f (a ++ b) ≡ fold_lines ledger f' b
unfolding fold_lines
fold_lines-append ledger [] b f f' h = ground (arith, h)
fold_lines-append ledger (JournalLine.core _ ∷ a) b f f' h = fold_lines-append ledger a b f f' h
fold_lines-append ledger (JournalLine.order_txn _ ∷ a) b f f' h =
    fold_lines-append ledger a b f f' h
fold_lines-append ledger (JournalLine.execution_txn txn ∷ a) b f f' h =
    elim (Result-cases (fold_txn ledger f txn)) [
      | inl (f₁, e) ↦
          rw (e, fold_lines) (fold_lines-append ledger a b f₁ f' (rw (e, fold_lines) at h))
      | inr (x, e) ↦ ground (arith, e, h)
    ]

fold-line :
    (inv : MarketInventory) (id : FillId) (plan : Plan) (f : Fold) (rest : List JournalLine)
    → Coherent inv id plan
    → Mirrors f inv
    → fold_lines inv.ledger f (JournalLine.execution_txn (execution_record inv plan) ∷ rest)
      ≡ fold_lines inv.ledger (noted_fold f id plan) rest
unfolding fold_lines
fold-line inv id plan f rest c m = ground (arith, fold_txn-noted inv id plan f c m)

ingest-Folded :
    (inv : MarketInventory) (e : ExecutionEvidence) (f : Fold)
    → inv.generation < u64_limit
    → Mirrors f inv
    → Folded inv f (ingest inv e)
ingest-Folded inv e f g m = elim (ingest-norow inv e g) [
  | inl kept ↦ subst (Folded inv f) (sym kept) (same-Folded inv f g m)
  | inr moved ↦
      let plan = norow_plan inv e in
      let c = norow_plan-Coherent inv e in
      subst (Folded inv f) (sym moved) (
        noted_fold f e.execution_id plan,
        fold-line inv e.execution_id plan f [] c m ∙ fold_lines-nil inv.ledger _,
        noted-Mirrors inv e.execution_id plan f c m,
        refl,
        ground arith,
      )
]

-- What the shell does with the inventory of a market: an execution without a row, or an event of
-- a row with its executions. The row may be any.
pub data Attempt : Type 0 where
  norow : (e : ExecutionEvidence) → Attempt
  batch : (order : OrderRow) (event : OrderEvent) (es : List ExecutionEvidence) → Attempt

abbrev pub attempt : MarketInventory → Attempt → MarketInventory × List JournalLine
attempt inv (norow e) = ingest inv e
attempt inv (batch order event es) = trade order inv event es

unfoldable pub ingest_all : MarketInventory → List Attempt → MarketInventory × List JournalLine
ingest_all inv [] = (inv, [])
ingest_all inv (a ∷ rest_of) =
    let (after, lines) = attempt inv a in
    let (last, rest) = ingest_all after rest_of in (last, lines ++ rest)

attempt-Folded :
    (inv : MarketInventory) (a : Attempt) (f : Fold)
    → inv.generation < u64_limit
    → Mirrors f inv
    → Folded inv f (attempt inv a)
attempt-Folded inv (norow e) f g m = ingest-Folded inv e f g m
attempt-Folded inv (batch order event es) f g m = trade-Folded order inv event es f g m

ingest_all-Folded :
    (inv : MarketInventory) (rest_of : List Attempt) (f : Fold)
    → inv.generation < u64_limit
    → Mirrors f inv
    → Folded inv f (ingest_all inv rest_of)
unfolding ingest_all
ingest_all-Folded inv [] f g m = same-Folded inv f g m
ingest_all-Folded inv (a ∷ rest_of) f g m =
    let (f', folded, mirrored, kept, bound) = attempt-Folded inv a f g m in
    let (f'', rest, last, same_ledger, final) =
      ingest_all-Folded (attempt inv a).0 rest_of f' bound mirrored in
    (
      f'',
      fold_lines-append inv.ledger (attempt inv a).1 _ f f' folded
          ∙ subst
              (λ (l : LedgerId). fold_lines l f' (ingest_all (attempt inv a).0 rest_of).1 ≡ ok f'')
              kept rest,
      last,
      same_ledger ∙ kept,
      final,
    )

-- The same answers to every question, and the same generation.
pub record SameInventory (a b : MarketInventory) : Type 0 where
  pub ledger : a.ledger ≡ b.ledger
  pub generation : a.generation ≡ b.generation
  pub entries : (id : FillId) → get a id ≡ get b id
  pub conflicts : (id : FillId) → lookup id a.conflicts ≡ lookup id b.conflicts

-- For any list of attempts, each an execution without a row or an event of any row with a batch of
-- executions, prepared, applied and journaled (or refused) one after the other from an empty
-- inventory, rebuild of the journal succeeds, and its inventory has the same ledger and generation
-- as the live one and the same entry and conflict under every id.
pub rebuild_inventory-ingest_all :
    (ledger : LedgerId) (es : List Attempt)
    → (r : MarketInventory) × (rebuild_inventory ledger (ingest_all (new_inventory ledger) es).1
        ≡ ok r)
      × SameInventory r (ingest_all (new_inventory ledger) es).0
unfolding rebuild_inventory get lookup
rebuild_inventory-ingest_all ledger es =
    let (f, folded, m, kept, _) =
      ingest_all-Folded (new_inventory ledger) es no_fold (omega arith) (record {
        entries = λ id. refl;
        conflicts = λ id. refl;
        generation = refl;
        ingested = λ id h. cc h;
      }) in
    (
      folded_inventory ledger f,
      rw (folded, rebuild_inventory),
      record {
        ledger = sym kept;
        generation = m.generation;
        entries = m.entries;
        conflicts = m.conflicts;
      },
    )

-- ===== src/Execution/Verdicts.antt =====
-- What holds of every verdict on a batch, since each step of the adjudication makes it hold.
use omsrs.Prelude.{List, [], ◌∷◌, Bool-cases, inl, inr}
use omsrs.Lifecycle.Types.{FillId}
use omsrs.Execution.Types.{ExecutionEvidence, MarketInventory, OrderRow, RefusalReason}
use omsrs.Execution.Adjudicate.{PreCore, Staging, Verdict, adjudicate_foreign, adjudicate_own}
use omsrs.Execution.Batch.{adjudicate, check_side, check_sides, verdicts_of, is_foreign_row}

module _ (P : FillId → PreCore → Type 0) where
  abbrev pub All : List (ExecutionEvidence × PreCore) → Type 0
  All [] = Unit
  All ((e, v) ∷ pre) = P e.execution_id v × All pre

  adjudicate-All :
      (judge : Staging → ExecutionEvidence → Verdict)
      (sound : (staging : Staging) (e : ExecutionEvidence) → P e.execution_id (judge staging e).0)
      (staging : Staging) (es : List ExecutionEvidence)
      → All (adjudicate judge staging es).0
  unfolding adjudicate
  adjudicate-All judge sound staging [] = tt
  adjudicate-All judge sound staging (e ∷ es) =
      (sound staging e, adjudicate-All judge sound (judge staging e).1 es)

  module _ (inv : MarketInventory) (order : OrderRow)
      (side : (staging : Staging) (e : ExecutionEvidence) (v : PreCore)
        → P e.execution_id v
        → P e.execution_id (check_side inv order staging e v).0) where
    check_sides-All :
        (staging : Staging) (pre : List (ExecutionEvidence × PreCore))
        → All pre
        → All (check_sides inv order staging pre).0
    unfolding check_sides
    check_sides-All staging [] k = tt
    check_sides-All staging ((e, v) ∷ pre) k =
        (side staging e v k.0, check_sides-All (check_side inv order staging e v).1 pre k.1)

    pub verdicts_of-All :
        (foreign : (refusal : RefusalReason) (staging : Staging) (e : ExecutionEvidence)
          → P e.execution_id (adjudicate_foreign inv refusal staging e).0)
        (own : (staging : Staging) (e : ExecutionEvidence)
          → P e.execution_id (adjudicate_own inv order staging e).0)
        (es : List ExecutionEvidence)
        → All (verdicts_of inv order es).0
    unfolding verdicts_of
    verdicts_of-All foreign own es = elim (Bool-cases (is_foreign_row inv order)) [
      | inl alien ↦
          let refusal = RefusalReason.row_foreign order.ledger order.ctx.market inv.ledger in
          rw alien (adjudicate-All (adjudicate_foreign inv refusal) (foreign refusal) [] es)
      | inr mine ↦
          let (pre, staging) = adjudicate (adjudicate_own inv order) [] es in
          rw mine
            (check_sides-All staging pre (adjudicate-All (adjudicate_own inv order) own [] es))
    ]

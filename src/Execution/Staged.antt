-- ===== src/Execution/Staged.antt =====
-- Each execution of a batch is taken for the inventory once.
use omsrs.Prelude.{
  ◌≡◌, refl, List, [], ◌∷◌, true, false, arith, if◌then◌else◌, Bool-cases, inl, inr, eq_iff,
}
use omsrs.BTreeMap.{BTreeMap, lookup, insert, contains_key, lookup-insert}
use omsrs.Lifecycle.Types.{FillId}
use omsrs.Execution.Types.{ExecutionEvidence, MarketInventory, OrderRow, RefusalReason}
use omsrs.Execution.Adjudicate.{PreCore, Staging, Verdict, adjudicate_foreign, adjudicate_own}
use omsrs.Execution.Batch.{adjudicate, check_side, check_sides, verdicts_of, is_foreign_row}
use omsrs.Execution.Stages.{takes, Stages, adjudicate_foreign-Stages, adjudicate_own-Stages}

-- Each execution is taken once.
unfoldable pub TakesOnce : BTreeMap (Unit {0}) → List (ExecutionEvidence × PreCore) → Type 0
TakesOnce seen [] = Unit
TakesOnce seen ((e, v) ∷ pre) =
    (takes v ≡ true → contains_key e.execution_id seen ≡ false)
    × TakesOnce (if takes v then insert e.execution_id tt seen else seen) pre

adjudicate-TakesOnce :
    (judge : Staging → ExecutionEvidence → Verdict)
    (sound : (staging : Staging) (e : ExecutionEvidence) → Stages staging e (judge staging e))
    (seen : BTreeMap (Unit {0})) (staging : Staging) (es : List ExecutionEvidence)
    → ((j : FillId) → contains_key j seen ≡ true → contains_key j staging ≡ true)
    → TakesOnce seen (adjudicate judge staging es).0
unfolding adjudicate TakesOnce
adjudicate-TakesOnce judge sound seen staging [] h = tt
adjudicate-TakesOnce judge sound seen staging (e ∷ es) h =
    let r = sound staging e in
    let v = (judge staging e).0 in
    (
      λ t. ground (arith, r.new t, h e.execution_id),
      adjudicate-TakesOnce judge sound (if takes v then insert e.execution_id tt seen else seen)
          (judge staging e).1 es
          (λ j g. elim (Bool-cases (takes v)) [
            | inl t ↦ ground (
              arith,
              t,
              r.staged t,
              r.kept j,
              h j,
              g,
              lookup-insert e.execution_id j tt seen,
              eq_iff e.execution_id j,
            )
            | inr t ↦ ground (arith, t, r.kept j, h j, g)
          ]),
    )

check_side-takes :
    (inv : MarketInventory) (order : OrderRow) (staging : Staging) (e : ExecutionEvidence)
    (v : PreCore)
    → takes (check_side inv order staging e v).0 ≡ true
    → takes v ≡ true
unfolding check_side
check_side-takes inv order staging e PreCore.ignored_zero h = h
check_side-takes inv order staging e (PreCore.refused od idisp entry conflict) h = h
check_side-takes inv order staging e (PreCore.admitted staged) h = refl

check_sides-TakesOnce :
    (inv : MarketInventory) (order : OrderRow) (staging : Staging)
    (seen fewer : BTreeMap (Unit {0})) (pre : List (ExecutionEvidence × PreCore))
    → ((j : FillId) → contains_key j fewer ≡ true → contains_key j seen ≡ true)
    → TakesOnce seen pre
    → TakesOnce fewer (check_sides inv order staging pre).0
unfolding check_sides TakesOnce
check_sides-TakesOnce inv order staging seen fewer [] h k = tt
check_sides-TakesOnce inv order staging seen fewer ((e, v) ∷ pre) h (new, k) =
    let v' = (check_side inv order staging e v).0 in
    let less = check_side-takes inv order staging e v in
    (
      λ t. ground (arith, new (less t), h e.execution_id),
      check_sides-TakesOnce inv order (check_side inv order staging e v).1
          (if takes v then insert e.execution_id tt seen else seen)
          (if takes v' then insert e.execution_id tt fewer else fewer) pre
          (λ j g. ground (
            arith,
            less,
            h j,
            g,
            lookup-insert e.execution_id j tt seen,
            lookup-insert e.execution_id j tt fewer,
          ))
          k,
    )

pub verdicts_of-TakesOnce :
    (inv : MarketInventory) (order : OrderRow) (es : List ExecutionEvidence)
    → TakesOnce [] (verdicts_of inv order es).0
unfolding verdicts_of lookup
verdicts_of-TakesOnce inv order es = elim (Bool-cases (is_foreign_row inv order)) [
  | inl foreign ↦ rw foreign (
      let refusal = RefusalReason.row_foreign order.ledger order.ctx.market inv.ledger in
      adjudicate-TakesOnce (adjudicate_foreign inv refusal) (adjudicate_foreign-Stages inv refusal)
        [] [] es (λ j h. h))
  | inr own ↦ rw own (
      let (pre, staging) = adjudicate (adjudicate_own inv order) [] es in
      check_sides-TakesOnce inv order staging [] [] pre (λ j h. h)
        (adjudicate-TakesOnce (adjudicate_own inv order) (adjudicate_own-Stages inv order) [] [] es
          (λ j h. h)))
]

-- ===== src/Execution/Debt.antt =====
-- What `execution_debt` computes.
use omsrs.Prelude.{ℕ, ◌+◌, ◌-◌, ◌≡◌, ◌<◌, List, [], ◌∷◌, arith}
use omsrs.Prelude.Words.{u64_limit, saturating_add}
use omsrs.Lifecycle.Ctx.{OrderCtx}
use omsrs.Execution.Orders.{execution_debt, execution_debt_from}

-- The quantity that is owed and not yet attributed, over all orders.
pub unattributed : List OrderCtx → ℕ
unattributed [] = 0
unattributed (ctx ∷ ctxs) = (ctx.fill_obligation - ctx.attributed_fill_qty) + unattributed ctxs

execution_debt_from_lem :
    (total : ℕ) (ctxs : List OrderCtx)
    → total < u64_limit
    → execution_debt_from total ctxs ≡ saturating_add total (unattributed ctxs)
unfolding execution_debt_from unattributed
execution_debt_from_lem total [] h = ground arith
execution_debt_from_lem total (ctx ∷ ctxs) h = ground (
  arith,
  execution_debt_from_lem (saturating_add total (ctx.fill_obligation - ctx.attributed_fill_qty))
      ctxs,
)

-- execution_debt is the sum over all orders of the fill obligation less the attributed quantity (0
-- where that is negative), cut off at the largest u64.
pub execution_debt-unattributed :
    (ctxs : List OrderCtx) → execution_debt ctxs ≡ saturating_add 0 (unattributed ctxs)
unfolding execution_debt
execution_debt-unattributed ctxs = execution_debt_from_lem 0 ctxs (omega arith)

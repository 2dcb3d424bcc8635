-- ===== src/Lifecycle/CrossChecks.antt =====
-- src/lifecycle.rs, lines 2318 to 2355 and 2537 to 2548: the cross-checks of the average and of the
-- fee in gate 3.
use omsrs.Prelude.{
  ℕ, ◌+◌, ◌*◌, ◌≤◌, ◌==◌, ◌≡◌, ◌≢◌, Option, some, none, arith, Option-cases, Bool-cases, inl, inr,
  refl,
}
use omsrs.Lifecycle.Ctx.{OrderCtx}
use omsrs.Lifecycle.Domain.{notional_avg_mismatch, fee_cross_check_mismatch}
use omsrs.Lifecycle.Finalize.{Gate, mismatch_gate, avg_gate}
use omsrs.Lifecycle.Releasable.{Answers}

notional-pass :
    (notional avg rc : ℕ)
    → mismatch_gate (notional_avg_mismatch notional avg rc) ≡ Gate.pass
    → rc ≢ 0
    → (avg * rc ≤ notional + rc) × (notional ≤ avg * rc + rc)
unfolding notional_avg_mismatch
notional-pass notional avg rc h n = ground (arith, h, n)

pass-notional :
    (notional avg rc : ℕ)
    → (rc ≢ 0 → (avg * rc ≤ notional + rc) × (notional ≤ avg * rc + rc))
    → notional_avg_mismatch notional avg rc ≡ none
unfolding notional_avg_mismatch
pass-notional notional avg rc h = elim (Bool-cases (rc == 0)) [
  | inl e ↦ ground (arith, e)
  | inr e ↦ let (low, high) = h (ground (arith, e)) in ground (arith, e, low, high)
]

pub avg-pass :
    (c : OrderCtx) (rc avg : ℕ)
    → avg_gate c rc ≡ Gate.pass
    → c.response_avg_price_cents ≡ some avg
    → rc ≢ 0
    → (avg * rc ≤ c.response_domain_notional_cents + rc)
      × (c.response_domain_notional_cents ≤ avg * rc + rc)
unfolding avg_gate
avg-pass c rc avg h e n =
    notional-pass c.response_domain_notional_cents avg rc (ground (arith, h, e)) n

pub pass-avg : (c : OrderCtx) (rc : ℕ) → Answers c rc → avg_gate c rc ≡ Gate.pass
unfolding avg_gate
pass-avg c rc a = elim (Option-cases c.response_avg_price_cents) [
  | inl e ↦ ground (arith, e)
  | inr (avg, e) ↦
      ground (arith, e, pass-notional c.response_domain_notional_cents avg rc (a.average avg e))
]

pub fee-pass :
    (resp : Option ℕ) (total fee : ℕ)
    → mismatch_gate (fee_cross_check_mismatch resp total) ≡ Gate.pass
    → resp ≡ some fee
    → total ≡ fee
unfolding fee_cross_check_mismatch
fee-pass resp total fee h e = ground (arith, h, e)

pub pass-fee :
    (resp : Option ℕ) (total : ℕ)
    → ((fee : ℕ) → resp ≡ some fee → total ≡ fee)
    → fee_cross_check_mismatch resp total ≡ none
unfolding fee_cross_check_mismatch
pass-fee none total h = refl
pass-fee (some fee) total h = ground (arith, h fee refl)

-- ===== src/Lifecycle/Invariant/Accounting.antt =====
-- The accounting of fills advances a valid context: the sum of the booked fills stays the
-- attributed quantity, within the obligation and the order.
use omsrs.Prelude.{
  ℕ, ◌+◌, Option, none, some, List, [], ◌∷◌, ◌++◌, Bool, false, ◌≡◌, ◌≤◌, arith, Option-cases, inl,
  inr, unwrap_or,
}
use omsrs.BTreeMap.{lookup, sum_of, sum_of-insert_new, sum_of-insert_old}
use omsrs.Lifecycle.Types.{VenueOrderId, FillPayload, FillRecord}
use omsrs.Lifecycle.Events.{Effect}
use omsrs.Lifecycle.Ctx.{OrderCtx, ok, Result-cases, invalidate_authority, raise_fill_obligation}
use omsrs.Lifecycle.Redelivery.{
  AccountAttempt-cases, FeeUpgrade, new_payload, upgrade_venue, add_late_fee, upgrade_fee,
  finish_redelivery, redeliver_fill,
}
use omsrs.Lifecycle.Fills.{
  store_fill, accumulate_fill, admit_fill, book_fill, account_fill_core, try_account_fill,
}
use omsrs.Lifecycle.Attribution.{account_fills}
use omsrs.Lifecycle.Invariant.{
  payload_qty, IsValid, Advances, Advances-IsValid, Advances-refl, Advances-trans,
}
use omsrs.Lifecycle.Invariant.Primitives.{accumulate-Advances}

upgrade_fee-Advances :
    (c : OrderCtx) (f : FillRecord) (prev : FillPayload) (u : FeeUpgrade)
    → IsValid c
    → upgrade_fee c f prev ≡ ok u
    → Advances c u.ctx × (u.ctx.applied_fills ≡ c.applied_fills)
unfolding upgrade_fee add_late_fee
upgrade_fee-Advances c f prev u v h = ground arith

finish-Advances :
    (c : OrderCtx) (f : FillRecord) (prev : FillPayload) (venue : Option VenueOrderId) (b : Bool)
    (u : FeeUpgrade)
    → Advances c u.ctx × (u.ctx.applied_fills ≡ c.applied_fills)
    → lookup f.fill_id c.applied_fills ≡ some prev
    → Advances c (finish_redelivery f prev venue b u).1
unfolding finish_redelivery
finish-Advances c f prev venue b u a known = ground (
  arith,
  sum_of-insert_old payload_qty f.fill_id (record prev { venue_order_id = venue; fee = u.fee }) prev
      u.ctx.applied_fills,
)

redeliver-Advances :
    (c : OrderCtx) (f : FillRecord) (prev : FillPayload)
    → IsValid c
    → lookup f.fill_id c.applied_fills ≡ some prev
    → Advances c (redeliver_fill c f prev).1
unfolding redeliver_fill
redeliver-Advances c f prev v known =
    elim (Result-cases (upgrade_venue c.venue_order_id f prev.venue_order_id)) [
      | inr (reason, e) ↦ ground arith
      | inl (up, e) ↦ elim (Result-cases (upgrade_fee c f prev)) [
        | inr (reason, e') ↦ ground arith
        | inl (u, e') ↦ ground (
          arith,
          finish-Advances c f prev up.0 up.1 u (upgrade_fee-Advances c f prev u v e') known,
        )
      ]
    ]

store-counted :
    (c : OrderCtx) (f : FillRecord) (fees : ℕ)
    → IsValid c
    → lookup f.fill_id c.applied_fills ≡ none
    → sum_of payload_qty (store_fill c f (c.attributed_fill_qty + f.qty) fees).applied_fills
      ≡ c.attributed_fill_qty + f.qty
unfolding store_fill new_payload
store-counted c f fees v new =
    ground (arith, sum_of-insert_new payload_qty f.fill_id (new_payload f) c.applied_fills)

-- A new fill within the order is stored, and its quantity becomes an obligation.
abbrev stored : OrderCtx → FillRecord → ℕ → OrderCtx
stored c f fees = store_fill c f (c.attributed_fill_qty + f.qty) fees

raised-Advances :
    (c : OrderCtx) (f : FillRecord) (fees : ℕ)
    → IsValid c
    → lookup f.fill_id c.applied_fills ≡ none
    → c.attributed_fill_qty + f.qty ≤ c.qty
    → Advances c
        (raise_fill_obligation
          (invalidate_authority (stored c f fees))
          (c.attributed_fill_qty + f.qty)).1
unfolding raise_fill_obligation invalidate_authority store_fill
raised-Advances c f fees v new fits = ground (arith, store-counted c f fees v new)

admit-Advances :
    (c : OrderCtx) (f : FillRecord) (fees : ℕ)
    → IsValid c
    → lookup f.fill_id c.applied_fills ≡ none
    → c.attributed_fill_qty + f.qty ≤ c.qty
    → Advances c (admit_fill (stored c f fees) f (c.attributed_fill_qty + f.qty)).1
unfolding admit_fill accumulate_fill
admit-Advances c f fees v new fits =
    let raised : OrderCtx =
      (raise_fill_obligation (invalidate_authority (stored c f fees))
        (c.attributed_fill_qty + f.qty)).1 in
    let a : Advances c raised = raised-Advances c f fees v new fits in
    let b : Advances c (accumulate_fill raised f) =
      Advances-trans a
        (accumulate-Advances raised f.qty f.price_cents f.fee_cents f.ts_ns (Advances-IsValid a)) in
    ground (arith, a, b)

book-Advances :
    (c : OrderCtx) (f : FillRecord)
    → IsValid c
    → lookup f.fill_id c.applied_fills ≡ none
    → Advances c (book_fill c f false).1
unfolding book_fill
book-Advances c f v new =
    ground (arith, admit-Advances c f (c.attributed_fee_cents + unwrap_or f.fee_cents 0) v new)

-- From a valid context, the accounting of any fill, in every branch, leaves a context in which the
-- identity, price, side and quantity of the order stay, a bound parent venue id stays bound, the
-- attributed quantity, the obligation and the authority epoch do not fall, and the attributed
-- quantity is still the sum of the booked fills, at most the obligation, which is at most the
-- order quantity.
pub try_account_fill-Advances :
    (c : OrderCtx) (f : FillRecord) → IsValid c → Advances c (try_account_fill c f).1
unfolding try_account_fill account_fill_core
try_account_fill-Advances c f v = elim (Option-cases (lookup f.fill_id c.applied_fills)) [
  | inl new ↦ ground (arith, book-Advances c f v new)
  | inr (prev, known) ↦ ground (arith, redeliver-Advances c f prev v known)
]

-- From a valid context, the accounting of a list of fills, also where a fill halts it, leaves a
-- context in which the identity, price, side and quantity of the order stay, a bound parent venue
-- id stays bound, the attributed quantity, the obligation and the authority epoch do not fall, and
-- the attributed quantity is still the sum of the booked fills, at most the obligation, which is
-- at most the order quantity.
pub account_fills-Advances :
    (c : OrderCtx) (es : List Effect) (fs : List FillRecord)
    → IsValid c
    → Advances c (account_fills c es fs).1
unfolding account_fills
account_fills-Advances c es [] v = Advances-refl v
account_fills-Advances c es (f ∷ fs) v =
    let d : OrderCtx = (try_account_fill c f).1 in
    let a : Advances c d = try_account_fill-Advances c f v in
    elim (AccountAttempt-cases (try_account_fill c f).0) [
      | inl (inl e) ↦
          rw (e, account_fills)
            (Advances-trans a (account_fills-Advances d es fs (Advances-IsValid a)))
      | inl (inr (new, e)) ↦
          rw (e, account_fills)
            (Advances-trans a (account_fills-Advances d (es ++ new) fs (Advances-IsValid a)))
      | inr (inl (new, e)) ↦
          rw (e, account_fills)
            (Advances-trans a (account_fills-Advances d (es ++ new) fs (Advances-IsValid a)))
      | inr (inr (reason, last, e)) ↦ rw (e, account_fills) a
    ]

-- ===== src/Lifecycle/Invariant.antt =====
-- What holds of a context between two events, and how an event may move it.
pub mod Primitives
pub mod Accounting
pub mod Handlers
pub mod Responses
pub mod Snapshots
pub mod Events
pub mod Replays
use omsrs.Prelude.{ℕ, ◌≤◌, ◌<◌, ◌≡◌, refl, ◌⊎◌, inr, none, arith}
use omsrs.Prelude.Words.{u64_limit}
use omsrs.BTreeMap.{BTreeMap, sum_of}
use omsrs.Lifecycle.Types.{FillPayload}
use omsrs.Lifecycle.Ctx.{OrderCtx}

abbrev pub payload_qty : FillPayload → ℕ
payload_qty p = p.qty

-- The counters agree with the booked fills, and none passes the order.
pub record IsValid (c : OrderCtx) : Type 0 where
  pub counted : c.attributed_fill_qty ≡ sum_of payload_qty c.applied_fills
  pub owed : c.attributed_fill_qty ≤ c.fill_obligation
  pub capped : c.fill_obligation ≤ c.qty
  pub epoch_word : c.authority_epoch < u64_limit

-- From a context to a later one: the identity stays, a bound parent stays bound, and no counter
-- falls. The later context is valid.
pub record Advances (c d : OrderCtx) : Type 0 where
  pub same_id : d.client_order_id ≡ c.client_order_id
  pub same_qty : d.qty ≡ c.qty
  pub same_price : d.price_cents ≡ c.price_cents
  pub same_side : d.side ≡ c.side
  pub venue_kept : (c.venue_order_id ≡ none) ⊎ (d.venue_order_id ≡ c.venue_order_id)
  pub attributed_grows : c.attributed_fill_qty ≤ d.attributed_fill_qty
  pub obligation_grows : c.fill_obligation ≤ d.fill_obligation
  pub epoch_grows : c.authority_epoch ≤ d.authority_epoch
  pub counted : d.attributed_fill_qty ≡ sum_of payload_qty d.applied_fills
  pub owed : d.attributed_fill_qty ≤ d.fill_obligation
  pub capped : d.fill_obligation ≤ d.qty
  pub epoch_word : d.authority_epoch < u64_limit

pub Advances-IsValid : {c d : OrderCtx} → Advances c d → IsValid d
Advances-IsValid a = ground arith

pub Advances-refl : {c : OrderCtx} → IsValid c → Advances c c
Advances-refl v = ground arith

pub Advances-trans : {b c d : OrderCtx} → Advances b c → Advances c d → Advances b d
Advances-trans p q = ground arith

-- ===== src/Observation/Keys.antt =====
-- The order of the registry's keys, and the registry after a wire is put.
use Prim.Native.Nat.{Ordering}
use Prim.Native.String.{then}
use text.Mathlib.TextPositions.{compare_refl}
use text.Mathlib.TextEquality.{path_by_compare}
use omsrs.Prelude.{◌≢◌, Option, ◌≡◌, refl, ap, ◌∙◌, some, arith}
use omsrs.BTreeMap.Order.{compare_flip, compare_trans}
use omsrs.OrdMap.{IsOrder, OrdMap, lookup-insert, insert-lookup}
use omsrs.Lifecycle.Types.{VenueOrderId}
use omsrs.Execution.Types.{LedgerId}
use omsrs.Observation.Types.{WireState, WireKey, WireRegistry, compare_key}
use omsrs.Observation.Registry.{key, wire_of, put_wire}

then_flip :
    (o p q r : Ordering)
    → (o ≡ Ordering.gt → p ≡ Ordering.lt)
    → (o ≡ Ordering.eq → p ≡ Ordering.eq)
    → (q ≡ Ordering.gt → r ≡ Ordering.lt)
    → then o q ≡ Ordering.gt
    → then p r ≡ Ordering.lt
then_flip o p q r f e g h = ground (arith, f, e, g)

compare_key_refl : (a : WireKey) → compare_key a a ≡ Ordering.eq
compare_key_refl a =
    ground (arith, compare_refl a.ledger.scope, compare_refl a.ledger.market, compare_refl a.wire)

pub eq_of_compare_key : (a b : WireKey) → compare_key a b ≡ Ordering.eq → a ≡ b
eq_of_compare_key a b h = ground (
  arith,
  path_by_compare a.ledger.scope b.ledger.scope,
  path_by_compare a.ledger.market b.ledger.market,
  path_by_compare a.wire b.wire,
)

compare_key_flip : (a b : WireKey) → compare_key a b ≡ Ordering.gt → compare_key b a ≡ Ordering.lt
compare_key_flip a b h = ground (
  arith,
  path_by_compare a.ledger.scope b.ledger.scope,
  path_by_compare a.ledger.market b.ledger.market,
  compare_refl b.ledger.scope,
  compare_refl b.ledger.market,
  compare_flip a.ledger.scope b.ledger.scope,
  compare_flip a.ledger.market b.ledger.market,
  compare_flip a.wire b.wire,
)

compare_key_trans :
    (a b c : WireKey)
    → compare_key a b ≡ Ordering.lt
    → compare_key b c ≡ Ordering.lt
    → compare_key a c ≡ Ordering.lt
compare_key_trans a b c h k = ground (
  arith,
  path_by_compare a.ledger.scope b.ledger.scope,
  path_by_compare b.ledger.scope c.ledger.scope,
  path_by_compare a.ledger.market b.ledger.market,
  path_by_compare b.ledger.market c.ledger.market,
  compare_trans a.ledger.scope b.ledger.scope c.ledger.scope,
  compare_trans a.ledger.market b.ledger.market c.ledger.market,
  compare_trans a.wire b.wire c.wire,
)

pub compare_key-IsOrder : IsOrder compare_key
compare_key-IsOrder = record {
  cmp_refl = compare_key_refl;
  eq_of_cmp = eq_of_compare_key;
  flip = compare_key_flip;
  trans = compare_key_trans;
}

-- A wire that is put is found.
pub wire_of-put_wire :
    (reg : WireRegistry) (ledger : LedgerId) (wire : VenueOrderId) (ws : WireState)
    → wire_of (put_wire reg ledger wire ws) ledger wire ≡ some ws
unfolding wire_of put_wire
wire_of-put_wire reg ledger wire ws =
    lookup-insert compare_key compare_key-IsOrder (key ledger wire) (key ledger wire) ws reg.wires
    ∙ rw (compare_key_refl (key ledger wire)) refl

pub wire_of-put_wire_at :
    (reg : WireRegistry) (ledger at : LedgerId) (wire w : VenueOrderId) (ws : WireState)
    → wire_of (put_wire reg ledger wire ws) at w ≡ elim (compare_key (key at w) (key ledger wire)) [
      | Ordering.eq ↦ some ws
      | _ ↦ wire_of reg at w
    ]
unfolding wire_of put_wire
wire_of-put_wire_at reg ledger at wire w ws =
    lookup-insert compare_key compare_key-IsOrder (key ledger wire) (key at w) ws reg.wires

pub put_wire-wire_of :
    (reg : WireRegistry) (ledger : LedgerId) (wire : VenueOrderId) (ws : WireState)
    → wire_of reg ledger wire ≡ some ws
    → put_wire reg ledger wire ws ≡ reg
unfolding wire_of put_wire
put_wire-wire_of reg ledger wire ws h =
    ap (λ (m : OrdMap WireKey WireState). record reg { wires = m })
      (insert-lookup compare_key compare_key-IsOrder (key ledger wire) ws reg.wires h)

put_wire_case :
    (o : Ordering) (here there : Option WireState)
    → o ≢ Ordering.eq
    → elim o [ Ordering.eq ↦ here | _ ↦ there ] ≡ there
put_wire_case Ordering.lt here there n = refl
put_wire_case Ordering.gt here there n = refl
put_wire_case Ordering.eq here there n = absurd (n refl)

-- Another wire stays as it was.
pub wire_of-put_wire_other :
    (reg : WireRegistry) (ledger at : LedgerId) (wire w : VenueOrderId) (ws : WireState)
    → key at w ≢ key ledger wire
    → wire_of (put_wire reg ledger wire ws) at w ≡ wire_of reg at w
wire_of-put_wire_other reg ledger at wire w ws n =
    wire_of-put_wire_at reg ledger at wire w ws
    ∙ put_wire_case (compare_key (key at w) (key ledger wire)) (some ws) (wire_of reg at w)
        (λ e. n (eq_of_compare_key (key at w) (key ledger wire) e))

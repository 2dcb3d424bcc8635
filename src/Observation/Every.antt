-- ===== src/Observation/Every.antt =====
-- src/observation.rs, lines 658 to 871 and 1034 to 1043: what the fold of a journal keeps of every
-- wire, if each change of a single wire keeps it.
use Prim.Native.Nat.{Ordering}
use omsrs.Prelude.{
  ℕ, ◌≡◌, refl, sym, ◌∙◌, Option, none, some, List, [], ◌∷◌, arith, unwrap_or, Option-cases,
  Bool-cases, inl, inr,
}
use mathlib.Core.Path.{subst}
use omsrs.Equality.{same}
use omsrs.OrdMap.{lookup-map_values}
use omsrs.Lifecycle.Types.{ClientOrderId, VenueOrderId, FillId}
use omsrs.Execution.Types.{LedgerId, InventoryEntry, LedgerId-discrete}
use omsrs.Observation.Types.{
  AmendLineage, UserOrderEvidence, WireState, WireLine, WireKey, WireRegistry, compare_key,
}
use omsrs.Observation.Registry.{venue_only_wire, key, wire_of, put_wire, ensured}
use omsrs.Observation.Binding.{terminalize_wire, bind_wire, bump_wire, all_wires, on_ledger}
use omsrs.Observation.OrderPart.{release_hold}
use omsrs.Observation.Holding.{hold_execution}
use omsrs.Observation.Fold.{receive, place_hold}
use omsrs.Observation.Keys.{compare_key-IsOrder, eq_of_compare_key, wire_of-put_wire_at}

-- A predicate of wires that holds of a new wire and that each change of a wire keeps.
pub record IsKept (P : WireKey → WireState → Type 0) : Type 0 where
  pub fresh : (k : WireKey) → P k venue_only_wire
  pub bound :
      (k : WireKey) (pos : ℕ) (cid : ClientOrderId) (ws : WireState)
      → P k ws
      → P k (bind_wire pos cid ws)
  pub ended :
      (k : WireKey) (cid : ClientOrderId) (ws : WireState) → P k ws → P k (terminalize_wire cid ws)
  pub bumped :
      (k : WireKey) (cid : ClientOrderId) (ws : WireState) → P k ws → P k (bump_wire cid ws)
  pub holding :
      (k : WireKey) (id : FillId) (entry : InventoryEntry) (ws : WireState)
      → P k ws
      → P k (hold_execution id entry ws)
  pub released :
      (k : WireKey) (cid : ClientOrderId) (ws : WireState) → P k ws → P k (release_hold cid ws)
  pub amended :
      (k : WireKey) (lineage : Option AmendLineage) (ws : WireState)
      → P k ws
      → P k (record ws { amend_lineage = lineage })
  pub received :
      (k : WireKey) (pos : ℕ) (e : UserOrderEvidence) (ws : WireState)
      → P k ws
      → P k (receive pos e ws)
  pub held : (k : WireKey) (pos : ℕ) (ws : WireState) → P k ws → P k (place_hold pos ws)

module _ (P : WireKey → WireState → Type 0) where
  -- Every wire of the registry has the property.
  abbrev pub Every : WireRegistry → Type 0
  Every reg =
      (ledger : LedgerId) (wire : VenueOrderId) (ws : WireState)
      → wire_of reg ledger wire ≡ some ws
      → P (key ledger wire) ws

  -- A line that replaces the state of a wire gives it one with the property.
  abbrev pub Brings : WireLine → Type 0
  Brings (WireLine.observation_txn t) = P (key t.ledger t.wire) t.wire_after
  Brings (WireLine.order_state_txn t) = P (key t.ledger t.wire) t.wire_after
  Brings (WireLine.rest_order_proof_txn t) = P (key t.ledger t.wire) t.wire_after
  Brings _ = Unit {0}

  abbrev pub AllBring : List WireLine → Type 0
  AllBring [] = Unit {0}
  AllBring (l ∷ ls) = Brings l × AllBring ls

  put_wire-case :
      (reg : WireRegistry) (ledger at : LedgerId) (wire w : VenueOrderId) (next ws : WireState)
      (o : Ordering)
      → compare_key (key at w) (key ledger wire) ≡ o
      → Every reg
      → P (key ledger wire) next
      → elim o [ Ordering.eq ↦ some next | _ ↦ wire_of reg at w ] ≡ some ws
      → P (key at w) ws
  put_wire-case reg ledger at wire w next ws Ordering.lt o h p e = h at w ws e
  put_wire-case reg ledger at wire w next ws Ordering.gt o h p e = h at w ws e
  put_wire-case reg ledger at wire w next ws Ordering.eq o h p e =
      let same_wire : next ≡ ws = ground (arith, e) in
      subst (λ (k : WireKey). P k ws) (sym (eq_of_compare_key (key at w) (key ledger wire) o))
        (subst (λ (x : WireState). P (key ledger wire) x) same_wire p)

  pub put_wire-Every :
      (reg : WireRegistry) (ledger : LedgerId) (wire : VenueOrderId) (next : WireState)
      → Every reg
      → P (key ledger wire) next
      → Every (put_wire reg ledger wire next)
  put_wire-Every reg ledger wire next h p at w ws e =
      put_wire-case reg ledger at wire w next ws (compare_key (key at w) (key ledger wire)) refl h p
        (sym (wire_of-put_wire_at reg ledger at wire w next) ∙ e)

  module _ (kept : IsKept P) where
    found-P :
        (reg : WireRegistry) (ledger : LedgerId) (wire : VenueOrderId)
        → Every reg
        → P (key ledger wire) (unwrap_or (wire_of reg ledger wire) venue_only_wire)
    found-P reg ledger wire h = elim (Option-cases (wire_of reg ledger wire)) [
      | inl e ↦
          subst (λ (o : Option WireState). P (key ledger wire) (unwrap_or o venue_only_wire))
            (sym e) (kept.fresh (key ledger wire))
      | inr (ws, e) ↦
          subst (λ (o : Option WireState). P (key ledger wire) (unwrap_or o venue_only_wire))
            (sym e) (h ledger wire ws e)
    ]

    pub ensured-Every :
        (reg : WireRegistry) (ledger : LedgerId) (wire : VenueOrderId)
        (change : WireState → WireState)
        → ((ws : WireState) → P (key ledger wire) ws → P (key ledger wire) (change ws))
        → Every reg
        → Every (ensured reg ledger wire change)
    unfolding ensured
    ensured-Every reg ledger wire change c h =
        put_wire-Every reg ledger wire
          (change (unwrap_or (wire_of reg ledger wire) venue_only_wire)) h
          (c (unwrap_or (wire_of reg ledger wire) venue_only_wire) (found-P reg ledger wire h))

    changed-found :
        (ledger at : LedgerId) (w : VenueOrderId) (change : WireState → WireState) (ws : WireState)
        (o : Option WireState)
        → ((x : WireState) → P (key at w) x → P (key at w) (change x))
        → ((x : WireState) → o ≡ some x → P (key at w) x)
        → elim o [ none ↦ none | some v ↦ some (on_ledger ledger change (key at w) v) ] ≡ some ws
        → P (key at w) ws
    changed-found ledger at w change ws none c h e = ground (arith, e)
    changed-found ledger at w change ws (some x) c h e =
        elim (Bool-cases (same LedgerId-discrete at ledger)) [
          | inl s ↦
              let p : change x ≡ ws = ground (arith, e, s) in
              subst (λ (y : WireState). P (key at w) y) p (c x (h x refl))
          | inr s ↦
              let p : x ≡ ws = ground (arith, e, s) in
              subst (λ (y : WireState). P (key at w) y) p (h x refl)
        ]

    pub all_wires-Every :
        (reg : WireRegistry) (ledger : LedgerId) (change : WireState → WireState)
        → ((k : WireKey) (ws : WireState) → P k ws → P k (change ws))
        → Every reg
        → Every (all_wires reg ledger change)
    unfolding wire_of
    all_wires-Every reg ledger change c h at w ws e =
        changed-found ledger at w change ws (wire_of reg at w) (c (key at w)) (h at w) (
          sym (
            lookup-map_values compare_key compare_key-IsOrder (on_ledger ledger change) (key at w)
              reg.wires)
          ∙ e)

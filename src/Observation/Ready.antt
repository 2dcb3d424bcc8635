-- ===== src/Observation/Ready.antt =====
-- src/observation.rs, lines 949 to 1032: when a ledger is ready.
use omsrs.Prelude.{
  ℕ, ◌≡◌, ◌↔◌, refl, sym, ap, ◌∙◌, Option, none, some, List, [], ◌∷◌, true, false, arith, eq_iff,
  is_empty, Option-cases, Bool-cases, inl, inr,
}
use omsrs.Equality.{same, same_of_eq, eq_of_same}
use omsrs.Prelude.Words.{saturating_add}
use omsrs.OrdMap.{OrdMap}
use omsrs.Lifecycle.Types.{ClientOrderId}
use omsrs.Execution.Types.{LedgerId, OrderRow, MarketInventory, Result-cases, ok, LedgerId-discrete}
use omsrs.Observation.Types.{Member, WireKind, WireState, WireKey, WireRegistry}
use omsrs.Observation.Answers.{Readiness}
use omsrs.Observation.Views.{
  Debts, check_member, debt_of, member_debts, add_wire, wire_debts, no_debts, readiness_of,
  readiness,
}

module _ (find : ClientOrderId → Option OrderRow) (ledger : LedgerId) where
  -- The row of a member: of its order, its ledger and its market.
  pub record HasRow (m : Member) : Type 0 where
    pub row : OrderRow
    pub found : find m.cid ≡ some row
    pub of_order : row.ctx.client_order_id ≡ m.cid
    pub of_scope : row.ledger.scope ≡ ledger.scope
    pub of_market : row.ledger.market ≡ ledger.market
    pub of_ctx : row.ctx.market ≡ ledger.market

  abbrev pub AllHaveRows : List Member → Type 0
  AllHaveRows [] = Unit {0}
  AllHaveRows (m ∷ ms) = HasRow m × AllHaveRows ms

  -- A wire that holds nothing open.
  pub record IsSettled (ws : WireState) : Type 0 where
    pub resolved : ws.kind ≡ WireKind.venue_only → ws.resolved ≡ true
    pub untracked : ws.kind ≡ WireKind.scoped → ws.tracked ≡ false
    pub rows : AllHaveRows ws.members

  abbrev pub AllSettled : OrdMap WireKey WireState → Type 0
  AllSettled [] = Unit {0}
  AllSettled ((k, ws) ∷ wires) = (k.ledger ≡ ledger → IsSettled ws) × AllSettled wires

  check_member-HasRow :
      (m : Member) (row : OrderRow)
      → find m.cid ≡ some row
      → check_member ledger m row ≡ none
      → HasRow m
  unfolding check_member
  check_member-HasRow m row f h = record {
    row = row;
    found = f;
    of_order = ground (arith, h, eq_iff row.ctx.client_order_id m.cid);
    of_scope = ground (arith, h, eq_iff row.ledger.scope ledger.scope);
    of_market = ground (arith, h, eq_iff row.ledger.market ledger.market);
    of_ctx = ground (arith, h, eq_iff row.ctx.market ledger.market);
  }

  HasRow-check_member : (m : Member) (r : HasRow m) → check_member ledger m r.row ≡ none
  unfolding check_member
  HasRow-check_member m r = ground (
    arith,
    r.of_order,
    r.of_scope,
    r.of_market,
    r.of_ctx,
    eq_iff r.row.ctx.client_order_id m.cid,
    eq_iff r.row.ledger.scope ledger.scope,
    eq_iff r.row.ledger.market ledger.market,
    eq_iff r.row.ctx.market ledger.market,
  )

  member_debts-AllHaveRows :
      (ms : List Member) (this_debt total : ℕ) (sums : ℕ × ℕ)
      → member_debts find ledger this_debt total ms ≡ ok sums
      → AllHaveRows ms
  unfolding member_debts
  member_debts-AllHaveRows [] this_debt total sums h = tt
  member_debts-AllHaveRows (m ∷ ms) this_debt total sums h = elim (Option-cases (find m.cid)) [
    | inl missing ↦ ground (arith, h, missing)
    | inr (row, f) ↦ elim (Option-cases (check_member ledger m row)) [
      | inr (reason, c) ↦ ground (arith, h, f, c)
      | inl c ↦ (
        check_member-HasRow m row f c,
        member_debts-AllHaveRows ms (saturating_add this_debt (debt_of row))
            (saturating_add total (debt_of row)) sums (ground (arith, h, f, c)),
      )
    ]
  ]

  AllHaveRows-member_debts :
      (ms : List Member) (this_debt total : ℕ)
      → AllHaveRows ms
      → (sums : ℕ × ℕ) × (member_debts find ledger this_debt total ms ≡ ok sums)
  unfolding member_debts
  AllHaveRows-member_debts [] this_debt total h = ((this_debt, total), refl)
  AllHaveRows-member_debts (m ∷ ms) this_debt total (r, rs) =
      let (sums, e) =
        AllHaveRows-member_debts ms (saturating_add this_debt (debt_of r.row))
          (saturating_add total (debt_of r.row)) rs in
      (sums, ground (arith, r.found, HasRow-check_member m r, e))

  -- Nothing counted as open.
  abbrev pub NoneOpen : Debts → Type 0
  NoneOpen d = (d.unresolved_venue_only ≡ 0) × (d.tracked_scoped ≡ 0)

  add_wire-NoneOpen :
      (inventory : MarketInventory) (ws : WireState) (this_debt total : ℕ) (d : Debts)
      → NoneOpen (add_wire inventory ws this_debt total d)
      → (ws.kind ≡ WireKind.venue_only → ws.resolved ≡ true)
        × (ws.kind ≡ WireKind.scoped → ws.tracked ≡ false)
        × NoneOpen d
  unfolding add_wire
  add_wire-NoneOpen inventory ws this_debt total d (v, t) = (
    λ k. ground (arith, v, t, k),
    λ k. ground (arith, v, t, k),
    (ground (arith, v), ground (arith, t)),
  )

  settled-add_wire :
      (inventory : MarketInventory) (ws : WireState) (this_debt total : ℕ) (d : Debts)
      → IsSettled ws
      → NoneOpen d
      → NoneOpen (add_wire inventory ws this_debt total d)
  unfolding add_wire
  settled-add_wire inventory ws this_debt total d s (v, t) =
      (ground (arith, v, s.resolved), ground (arith, t, s.untracked))

  wire_debts-AllSettled :
      (inventory : MarketInventory) (d last : Debts) (wires : OrdMap WireKey WireState)
      → wire_debts find ledger inventory d wires ≡ ok last
      → NoneOpen last
      → NoneOpen d × AllSettled wires
  unfolding wire_debts
  wire_debts-AllSettled inventory d last [] h n =
      let same_debts : d ≡ last = ground (arith, h) in (rw same_debts n, tt)
  wire_debts-AllSettled inventory d last ((k, ws) ∷ wires) h n =
      elim (Bool-cases (same LedgerId-discrete k.ledger ledger)) [
        | inr other ↦
            let (open_none, rest) =
              wire_debts-AllSettled inventory d last wires (ground (arith, h, other)) n in
            (
              open_none,
              ((λ e. ground (arith, other, same_of_eq LedgerId-discrete k.ledger ledger e)), rest),
            )
        | inl here ↦
            let at : k.ledger ≡ ledger = eq_of_same LedgerId-discrete k.ledger ledger here in
            elim (Result-cases (member_debts find k.ledger 0 d.member_debt ws.members)) [
              | inr (e, p) ↦ ground (arith, h, here, p)
              | inl ((this_debt, total), p) ↦
                  let (open_none, rest) =
                    wire_debts-AllSettled inventory (add_wire inventory ws this_debt total d) last
                      wires (ground (arith, h, here, p)) n in
                  let (resolved, untracked, before) =
                    add_wire-NoneOpen inventory ws this_debt total d open_none in
                  (
                    before,
                    (
                      λ e. record {
                        resolved = resolved;
                        untracked = untracked;
                        rows =
                            member_debts-AllHaveRows ws.members 0 d.member_debt (this_debt, total)
                              (ap (λ (l : LedgerId). member_debts find l 0 d.member_debt ws.members)
                                  (sym at)
                                ∙ p);
                      },
                      rest,
                    ),
                  )
            ]
      ]

  AllSettled-wire_debts :
      (inventory : MarketInventory) (d : Debts) (wires : OrdMap WireKey WireState)
      → AllSettled wires
      → NoneOpen d
      → (last : Debts) × (wire_debts find ledger inventory d wires ≡ ok last) × NoneOpen last
  unfolding wire_debts
  AllSettled-wire_debts inventory d [] s n = (d, refl, n)
  AllSettled-wire_debts inventory d ((k, ws) ∷ wires) (s, ss) n =
      elim (Bool-cases (same LedgerId-discrete k.ledger ledger)) [
        | inr other ↦
            let (last, e, open_none) = AllSettled-wire_debts inventory d wires ss n in
            (last, ground (arith, other, e), open_none)
        | inl here ↦
            let at : k.ledger ≡ ledger = eq_of_same LedgerId-discrete k.ledger ledger here in
            let ((this_debt, total), p) =
              AllHaveRows-member_debts ws.members 0 d.member_debt (s at).rows in
            let q : member_debts find k.ledger 0 d.member_debt ws.members ≡ ok (this_debt, total) =
              ap (λ (l : LedgerId). member_debts find l 0 d.member_debt ws.members) at ∙ p in
            let (last, e, open_none) =
              AllSettled-wire_debts inventory (add_wire inventory ws this_debt total d) wires ss
                (settled-add_wire inventory ws this_debt total d (s at) n) in
            (last, ground (arith, here, q, e), open_none)
      ]

-- No conflict stands, and every wire of the ledger is settled.
pub record IsReady (reg : WireRegistry) (ledger : LedgerId) (find : ClientOrderId → Option OrderRow)
    (inventory : MarketInventory) : Type 0 where
  pub agreed : inventory.ledger ≡ ledger → is_empty inventory.conflicts ≡ true
  pub settled : AllSettled find ledger reg.wires

readiness_of-NoneOpen :
    (find : ClientOrderId → Option OrderRow) (ledger : LedgerId) (d : Debts)
    → readiness_of d ≡ Readiness.ready
    → NoneOpen find ledger d
unfolding readiness_of
readiness_of-NoneOpen find ledger d h = (ground (arith, h), ground (arith, h))

NoneOpen-ready :
    (find : ClientOrderId → Option OrderRow) (ledger : LedgerId) (d : Debts)
    → NoneOpen find ledger d
    → readiness_of d ≡ Readiness.ready
unfolding readiness_of
NoneOpen-ready find ledger d (v, t) = ground (arith, v, t)

ready-IsReady :
    (reg : WireRegistry) (ledger : LedgerId) (find : ClientOrderId → Option OrderRow)
    (inventory : MarketInventory)
    → readiness reg ledger find inventory ≡ ok Readiness.ready
    → IsReady reg ledger find inventory
unfolding readiness
ready-IsReady reg ledger find inventory h =
    elim (Result-cases (wire_debts find ledger inventory no_debts reg.wires)) [
      | inr (e, p) ↦ ground (arith, h, p)
      | inl (d, p) ↦ record {
        agreed = λ e. ground (arith, h, same_of_eq LedgerId-discrete inventory.ledger ledger e);
        settled =
            (wire_debts-AllSettled find ledger inventory no_debts d reg.wires p
              (readiness_of-NoneOpen find ledger d (ground (arith, h, p)))).1;
      }
    ]

IsReady-ready :
    (reg : WireRegistry) (ledger : LedgerId) (find : ClientOrderId → Option OrderRow)
    (inventory : MarketInventory)
    → IsReady reg ledger find inventory
    → readiness reg ledger find inventory ≡ ok Readiness.ready
unfolding readiness
IsReady-ready reg ledger find inventory r =
    let (d, e, n) =
      AllSettled-wire_debts find ledger inventory no_debts reg.wires r.settled (refl, refl) in
    elim (Bool-cases (same LedgerId-discrete inventory.ledger ledger)) [
      | inl here ↦ ground (
        arith,
        e,
        here,
        r.agreed (eq_of_same LedgerId-discrete inventory.ledger ledger here),
        NoneOpen-ready find ledger d n,
      )
      | inr other ↦ ground (arith, e, other, NoneOpen-ready find ledger d n)
    ]

-- readiness returns Ready exactly where an inventory of the ledger has no conflict, and of the
-- wires of the ledger each venue-only one is resolved, each scoped one is untracked, and each
-- member is found with a row of its client order id, ledger and market.
pub readiness-IsReady :
    (reg : WireRegistry) (ledger : LedgerId) (find : ClientOrderId → Option OrderRow)
    (inventory : MarketInventory)
    → (readiness reg ledger find inventory ≡ ok Readiness.ready) ↔ IsReady reg ledger find inventory
readiness-IsReady reg ledger find inventory =
    (ready-IsReady reg ledger find inventory, IsReady-ready reg ledger find inventory)

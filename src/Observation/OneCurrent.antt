-- ===== src/Observation/OneCurrent.antt =====
-- src/observation.rs, lines 782 to 822: the members of a wire, of which one at most is current.
use omsrs.Prelude.{
  ℕ, ◌+◌, ◌≤◌, ◌≡◌, refl, sym, ◌∙◌, List, [], ◌∷◌, ◌++◌, Bool, false, not, ◌&&◌, arith, is_empty,
  if◌then◌else◌, eq_iff, same_text, Bool-cases, inl, inr,
}
use omsrs.Lifecycle.Types.{ClientOrderId}
use omsrs.Observation.Types.{Member, WireKind, WireState}
use omsrs.Observation.Registry.{venue_only_wire, is_current, has_member}
use omsrs.Observation.Binding.{
  terminalize, terminalize_wire, supersede_all, bound_member, bind_wire, bump_wire,
}
use omsrs.Observation.OrderPart.{release_hold}
use omsrs.Observation.Holding.{hold_execution}
use omsrs.Observation.Fold.{receive, place_hold}
use omsrs.Observation.Members.{contains}
use omsrs.Observation.Targets.{Distinct}
use omsrs.Observation.Every.{IsKept}
use omsrs.Observation.Joined.{has_member-supersede}

unfoldable pub currents : List Member → ℕ
currents [] = 0
currents (m ∷ ms) = (if is_current m then 1 else 0) + currents ms

abbrev pub member_cids : List Member → List ClientOrderId
member_cids [] = []
member_cids (m ∷ ms) = m.cid ∷ member_cids ms

-- One member at most is current, no order is a member twice, and only a wire of orders has members.
pub record IsProper (ws : WireState) : Type 0 where
  pub one_current : currents ws.members ≤ 1
  pub distinct : Distinct (member_cids ws.members)
  pub venue_only : ws.kind ≡ WireKind.venue_only → ws.members ≡ []

currents-supersede : (ms : List Member) → currents (supersede_all ms) ≡ 0
unfolding currents supersede_all
currents-supersede [] = refl
currents-supersede (m ∷ ms) = ground (arith, currents-supersede ms)

currents-append : (ms ns : List Member) → currents (ms ++ ns) ≡ currents ms + currents ns
unfolding currents
currents-append [] ns = omega arith
currents-append (m ∷ ms) ns = ground (arith, currents-append ms ns)

currents-terminalize :
    (c : ClientOrderId) (ms : List Member) → currents (terminalize c ms) ≤ currents ms
unfolding currents terminalize
currents-terminalize c [] = omega arith
currents-terminalize c (m ∷ ms) = ground (arith, currents-terminalize c ms)

member_cids-supersede : (ms : List Member) → member_cids (supersede_all ms) ≡ member_cids ms
unfolding supersede_all
member_cids-supersede [] = refl
member_cids-supersede (m ∷ ms) = ground (arith, member_cids-supersede ms)

member_cids-terminalize :
    (c : ClientOrderId) (ms : List Member) → member_cids (terminalize c ms) ≡ member_cids ms
unfolding terminalize
member_cids-terminalize c [] = refl
member_cids-terminalize c (m ∷ ms) = ground (arith, member_cids-terminalize c ms)

contains-append :
    (c d : ClientOrderId) (pos : ℕ) (ms : List Member)
    → contains d (member_cids ms) ≡ false
    → same_text c d ≡ false
    → contains d (member_cids (ms ++ bound_member pos c)) ≡ false
contains-append c d pos [] h n = ground (arith, n)
contains-append c d pos (m ∷ ms) h n = ground (arith, h, contains-append c d pos ms)

append-Distinct :
    (c : ClientOrderId) (pos : ℕ) (ms : List Member)
    → has_member c ms ≡ false
    → Distinct (member_cids ms)
    → Distinct (member_cids (ms ++ bound_member pos c))
append-Distinct c pos [] h d = (refl, tt)
append-Distinct c pos (m ∷ ms) h (fresh, d) = (
  contains-append c m.cid pos ms fresh (ground (arith, h, eq_iff c m.cid, eq_iff m.cid c)),
  append-Distinct c pos ms (ground (arith, h)) d,
)

later_bound-IsProper :
    (pos : ℕ) (c : ClientOrderId) (ws : WireState)
    → has_member c ws.members ≡ false
    → IsProper ws
    → IsProper (record ws {
      members = supersede_all ws.members ++ bound_member pos c;
      kind = WireKind.scoped;
    })
unfolding currents
later_bound-IsProper pos c ws h p = record {
  one_current = omega (
    arith,
    currents-append (supersede_all ws.members) (bound_member pos c),
    currents-supersede ws.members,
  );
  distinct =
      append-Distinct c pos (supersede_all ws.members) (has_member-supersede c ws.members ∙ h)
        (rw (member_cids-supersede ws.members) (p.distinct));
  venue_only = λ q. ground (arith, q);
}

first_bound-IsProper :
    (pos : ℕ) (c : ClientOrderId) (ws : WireState) (tracked : Bool)
    → IsProper
        (record ws { members = bound_member pos c; kind = WireKind.scoped; tracked = tracked })
unfolding currents
first_bound-IsProper pos c ws tracked = record {
  one_current = omega arith;
  distinct = (refl, tt);
  venue_only = λ q. ground (arith, q);
}

bind_wire-IsProper :
    (pos : ℕ) (c : ClientOrderId) (ws : WireState) → IsProper ws → IsProper (bind_wire pos c ws)
unfolding bind_wire
bind_wire-IsProper pos c ws p = elim (Bool-cases (has_member c ws.members)) [
  | inl h ↦ rw h p
  | inr h ↦ elim (Bool-cases (is_empty ws.members)) [
    | inl e ↦ rw (h, e) (first_bound-IsProper pos c ws (not (is_empty ws.held) && not ws.resolved))
    | inr e ↦ rw (h, e) (later_bound-IsProper pos c ws h p)
  ]
]

terminalize-nil : (c : ClientOrderId) (ms : List Member) → ms ≡ [] → terminalize c ms ≡ []
unfolding terminalize
terminalize-nil c [] h = refl
terminalize-nil c (m ∷ ms) h = ground (arith, h)

terminalize_wire-IsProper :
    (c : ClientOrderId) (ws : WireState) → IsProper ws → IsProper (terminalize_wire c ws)
terminalize_wire-IsProper c ws p = record {
  one_current = omega (arith, currents-terminalize c ws.members, p.one_current);
  distinct = rw (member_cids-terminalize c ws.members) (p.distinct);
  venue_only = λ q. terminalize-nil c ws.members (p.venue_only q);
}

-- A change that leaves the members and the kind.
pub same_members-IsProper :
    (ws next : WireState)
    → next.members ≡ ws.members
    → next.kind ≡ ws.kind
    → IsProper ws
    → IsProper next
same_members-IsProper ws next m k p = record {
  one_current = rw m (p.one_current);
  distinct = rw m (p.distinct);
  venue_only = λ q. m ∙ p.venue_only (sym k ∙ q);
}

pub IsProper-IsKept : IsKept (λ k. IsProper)
unfolding venue_only_wire currents bump_wire hold_execution release_hold
IsProper-IsKept = record {
  fresh = λ k. record { one_current = omega arith; distinct = tt; venue_only = λ q. refl };
  bound = λ k. bind_wire-IsProper;
  ended = λ k. terminalize_wire-IsProper;
  bumped = λ k c ws. same_members-IsProper ws (bump_wire c ws) (ground arith) (ground arith);
  holding =
      λ k id e ws. same_members-IsProper ws (hold_execution id e ws) (ground arith) (ground arith);
  released = λ k c ws. same_members-IsProper ws (release_hold c ws) (ground arith) (ground arith);
  amended = λ k l ws. same_members-IsProper ws (record ws { amend_lineage = l }) refl refl;
  received = λ k pos e ws. same_members-IsProper ws (receive pos e ws) refl refl;
  held = λ k pos ws. same_members-IsProper ws (place_hold pos ws) refl refl;
}

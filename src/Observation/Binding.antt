-- ===== src/Observation/Binding.antt =====
-- src/observation.rs, lines 780 to 838: the members of a wire.
use omsrs.Prelude.{ℕ, none, List, [], ◌∷◌, ◌++◌, not, ◌&&◌, is_empty, same_text, if◌then◌else◌}
use omsrs.Prelude.Words.{saturating_add}
use omsrs.Equality.{same}
use omsrs.OrdMap.{map_values}
use omsrs.Lifecycle.Types.{ClientOrderId, VenueOrderId}
use omsrs.Execution.Types.{LedgerId, LedgerId-discrete}
use omsrs.Observation.Types.{
  MemberRole, Member, WireKind, WireState, WireKey, WireRegistry, compare_key,
}
use omsrs.Observation.Registry.{has_member, ensured}

-- The first member of this id becomes terminal.
unfoldable pub terminalize : ClientOrderId → List Member → List Member
terminalize cid [] = []
terminalize cid (m ∷ ms) =
    let rest = terminalize cid ms in
    if same_text m.cid cid then record m { role = MemberRole.terminal } ∷ ms else m ∷ rest

abbrev pub supersede : Member → Member
supersede m = elim m.role [
  | MemberRole.terminal ↦ m
  | _ ↦ record m { role = MemberRole.superseded }
]

unfoldable pub supersede_all : List Member → List Member
supersede_all [] = []
supersede_all (m ∷ ms) = supersede m ∷ supersede_all ms

abbrev pub bound_member : ℕ → ClientOrderId → List Member
bound_member pos cid = record { cid = cid; role = MemberRole.current; bind_pos = pos } ∷ []

unfoldable pub bind_wire : ℕ → ClientOrderId → WireState → WireState
bind_wire pos cid ws =
    if has_member cid ws.members
    then ws
    else if is_empty ws.members
    then record ws {
      members = bound_member pos cid;
      kind = WireKind.scoped;
      tracked = not (is_empty ws.held) && not ws.resolved;
    }
    else record ws {
      members = supersede_all ws.members ++ bound_member pos cid;
      kind = WireKind.scoped;
    }

unfoldable pub bind_member :
    WireRegistry → ℕ → LedgerId → VenueOrderId → ClientOrderId → WireRegistry
bind_member reg pos ledger wire cid = ensured reg ledger wire (bind_wire pos cid)

abbrev pub on_ledger : LedgerId → (WireState → WireState) → WireKey → WireState → WireState
on_ledger ledger change k ws = if same LedgerId-discrete k.ledger ledger then change ws else ws

abbrev pub all_wires : WireRegistry → LedgerId → (WireState → WireState) → WireRegistry
all_wires reg ledger change = record reg {
  wires = map_values compare_key (on_ledger ledger change) reg.wires;
}

abbrev pub terminalize_wire : ClientOrderId → WireState → WireState
terminalize_wire cid ws = record ws { members = terminalize cid ws.members }

unfoldable pub terminalize_cid : WireRegistry → LedgerId → ClientOrderId → WireRegistry
terminalize_cid reg ledger cid = all_wires reg ledger (terminalize_wire cid)

-- An own action on a member: the wire is of a new generation, and nothing proved of it stands.
unfoldable pub bump_wire : ClientOrderId → WireState → WireState
bump_wire cid ws =
    if has_member cid ws.members
    then record ws {
      generation = saturating_add ws.generation 1;
      remaining_observation = none;
      proved_current_cid = none;
    }
    else ws

unfoldable pub bump_generation : WireRegistry → LedgerId → ClientOrderId → WireRegistry
bump_generation reg ledger cid = all_wires reg ledger (bump_wire cid)

-- ===== src/Observation/Marks.antt =====
-- src/observation.rs, lines 674 to 685 and 1446 to 1452: the marks of the ended members, which the
-- fold of the round's line sets again.
use omsrs.Prelude.{◌≡◌, refl, some, List, [], ◌∷◌, true, false, arith, eq_iff}
use omsrs.Lifecycle.Types.{ClientOrderId}
use omsrs.Execution.Types.{OrderRow}
use omsrs.Observation.Types.{Member, MemberAfter}
use omsrs.Observation.Registry.{is_terminal_state}
use omsrs.Observation.Binding.{terminalize}
use omsrs.Observation.Members.{cids_of, contains}
use omsrs.Observation.Observe.{Scratch}
use omsrs.Observation.Round.{find_after, mark_terminal, observe_all, changed_members}
use omsrs.Observation.Fold.{terminalize_after}
use omsrs.Observation.Targets.{Distinct}

abbrev pub after_cids : List MemberAfter → List ClientOrderId
after_cids [] = []
after_cids (a ∷ rest) = a.client_order_id ∷ after_cids rest

-- An ended member is marked already.
terminalize-mark :
    (a : MemberAfter) (after : List MemberAfter) (ms : List Member)
    → find_after a.client_order_id after ≡ some a
    → is_terminal_state a.state_after ≡ true
    → terminalize a.client_order_id (mark_terminal after ms) ≡ mark_terminal after ms
unfolding terminalize mark_terminal
terminalize-mark a after [] found ends = refl
terminalize-mark a after (m ∷ ms) found ends =
    ground
      (arith, found, ends, eq_iff m.cid a.client_order_id, terminalize-mark a after ms found ends)

-- Each entry of the second list is found under its id in the first.
abbrev AllAfter : List MemberAfter → List MemberAfter → Type 0
AllAfter all [] = Unit {0}
AllAfter all (a ∷ rest) = (find_after a.client_order_id all ≡ some a) × AllAfter all rest

AllAfter-cons :
    (p : MemberAfter) (all rest : List MemberAfter)
    → contains p.client_order_id (after_cids rest) ≡ false
    → AllAfter all rest
    → AllAfter (p ∷ all) rest
unfolding find_after
AllAfter-cons p all [] fresh h = tt
AllAfter-cons p all (a ∷ rest) fresh (h, hs) = (
  ground (
    arith,
    fresh,
    h,
    eq_iff p.client_order_id a.client_order_id,
    eq_iff a.client_order_id p.client_order_id,
  ),
  AllAfter-cons p all rest (ground (arith, fresh)) hs,
)

AllAfter-self : (as₁ : List MemberAfter) → Distinct (after_cids as₁) → AllAfter as₁ as₁
unfolding find_after
AllAfter-self [] d = tt
AllAfter-self (a ∷ rest) (fresh, d) = (
  ground (arith, eq_iff a.client_order_id a.client_order_id),
  AllAfter-cons a rest rest fresh (AllAfter-self rest d),
)

terminalize_after-mark :
    (after rest : List MemberAfter) (ms : List Member)
    → AllAfter after rest
    → terminalize_after (mark_terminal after ms) rest ≡ mark_terminal after ms
unfolding terminalize_after
terminalize_after-mark after [] ms h = refl
terminalize_after-mark after (a ∷ rest) ms (h, hs) =
    ground (arith, terminalize-mark a after ms h, terminalize_after-mark after rest ms hs)

-- The changed members are members.
pub changed-contains :
    (c : ClientOrderId) (observe : OrderRow → Scratch) (ms : List OrderRow)
    → contains c (cids_of ms) ≡ false
    → contains c (after_cids (changed_members (observe_all observe ms))) ≡ false
unfolding changed_members observe_all
changed-contains c observe [] h = refl
changed-contains c observe (m ∷ ms) h = ground (arith, h, changed-contains c observe ms)

pub changed-Distinct :
    (observe : OrderRow → Scratch) (ms : List OrderRow)
    → Distinct (cids_of ms)
    → Distinct (after_cids (changed_members (observe_all observe ms)))
unfolding changed_members observe_all
changed-Distinct observe [] d = tt
changed-Distinct observe (m ∷ ms) (fresh, d) =
    ground (
      arith,
      changed-contains m.ctx.client_order_id observe ms fresh,
      changed-Distinct observe ms d,
    )

-- The fold of a round's line leaves the marks that the round has set.
pub terminalize_after-round :
    (observe : OrderRow → Scratch) (rows : List OrderRow) (ms : List Member)
    → Distinct (cids_of rows)
    → terminalize_after
        (mark_terminal (changed_members (observe_all observe rows)) ms)
        (changed_members (observe_all observe rows))
      ≡ mark_terminal (changed_members (observe_all observe rows)) ms
terminalize_after-round observe rows ms d =
    let after = changed_members (observe_all observe rows) in
    terminalize_after-mark after after ms (AllAfter-self after (changed-Distinct observe rows d))

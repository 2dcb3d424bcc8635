-- ===== src/Observation/RoundRows.antt =====
-- src/observation.rs, lines 1046 to 1113 and 1403 to 1417: the rows of a round, as the journal
-- restores them.
use mathlib.Core.Path.{subst}
use omsrs.Prelude.{
  ℕ, suc, ◌+◌, ◌==◌, ◌≡◌, refl, ap, ◌∙◌, Option, none, some, List, [], ◌∷◌, ◌++◌, false, arith,
  same_text, eq_iff, Bool-cases, inl, inr,
}
use omsrs.SeqMap.{SeqMap, numbered, count}
use omsrs.Lifecycle.Types.{ClientOrderId}
use omsrs.Execution.Types.{LedgerId, Result-cases, ok}
use omsrs.Observation.Types.{MemberAfter, WireLine}
use omsrs.Observation.Members.{contains}
use omsrs.Observation.Round.{find_after}
use omsrs.Observation.Restore.{
  Snap, insert_snap, snap_members, snap_line, snap_lines, last_of_snaps,
}
use omsrs.Observation.Targets.{Distinct}
use omsrs.Observation.Marks.{after_cids}

-- The last of the values, with its number.
abbrev pub last_numbered : ℕ → Option (ℕ × Snap) → List Snap → Option (ℕ × Snap)
last_numbered expected last [] = last
last_numbered expected last (v ∷ vs) = last_numbered (suc expected) (some (expected, v)) vs

last_numbered-count :
    (e seq : ℕ) (w s : Snap) (vs : List Snap)
    → last_numbered (suc e) (some (e, w)) vs ≡ some (seq, s)
    → seq ≡ e + count vs
last_numbered-count e seq w s [] h = ground (arith, h)
last_numbered-count e seq w s (v ∷ vs) h = omega (arith, last_numbered-count (suc e) seq v s vs h)

pub last_numbered-first :
    (seq : ℕ) (s : Snap) (vs : List Snap)
    → last_numbered 1 none vs ≡ some (seq, s)
    → 1 + count vs ≡ seq + 1
last_numbered-first seq s [] h = ground (arith, h)
last_numbered-first seq s (v ∷ vs) h = omega (arith, last_numbered-count 1 seq v s vs h)

pub last_numbered-push :
    (expected : ℕ) (last : Option (ℕ × Snap)) (v : Snap) (vs : List Snap)
    → last_numbered expected last (vs ++ v ∷ []) ≡ some (expected + count vs, v)
last_numbered-push expected last v [] =
    let e : expected ≡ expected + 0 = omega arith in ap (λ (n : ℕ). some (n, v)) e
last_numbered-push expected last v (w ∷ vs) =
    let e : suc expected + count vs ≡ expected + suc (count vs) = omega arith in
    last_numbered-push (suc expected) (some (expected, w)) v vs ∙ ap (λ (n : ℕ). some (n, v)) e

module _ (ledger : LedgerId) (cid : ClientOrderId) where
  -- The numbers that the rebuild accepts run from the first on.
  pub last_of_snaps-numbered :
      (expected : ℕ) (last found : Option (ℕ × Snap)) (m : SeqMap Snap)
      → last_of_snaps ledger cid expected last m ≡ ok found
      → (vs : List Snap) × (m ≡ numbered expected vs) × (found ≡ last_numbered expected last vs)
  unfolding last_of_snaps
  last_of_snaps-numbered expected last found [] h = ([], refl, ground (arith, h))
  last_of_snaps-numbered expected last found ((seq, v) ∷ m) h =
      elim (Bool-cases (seq == expected)) [
        | inr gap ↦ ground (arith, h, gap)
        | inl here ↦
            let next : expected + 1 ≡ suc expected = omega arith in
            let same_seq : seq ≡ expected = ground (arith, here) in
            let (vs, e, f) =
              last_of_snaps-numbered (expected + 1) (some (expected, v)) found m
                (ground (arith, h, here)) in
            (
              v ∷ vs,
              ground (arith, same_seq, e ∙ ap (λ (n : ℕ). numbered n vs) next),
              f ∙ ap (λ (n : ℕ). last_numbered n (some (expected, v)) vs) next,
            )
      ]

  pub numbered-last_of_snaps :
      (expected : ℕ) (last : Option (ℕ × Snap)) (vs : List Snap)
      → last_of_snaps ledger cid expected last (numbered expected vs)
        ≡ ok (last_numbered expected last vs)
  unfolding last_of_snaps
  numbered-last_of_snaps expected last [] = refl
  numbered-last_of_snaps expected last (v ∷ vs) =
      let next : expected + 1 ≡ suc expected = omega arith in
      let rest = numbered-last_of_snaps (suc expected) (some (expected, v)) vs in
      ground (arith, next, rest)

  pub snap_lines-append :
      (m next : SeqMap Snap) (lines : List WireLine) (l : WireLine)
      → snap_lines ledger cid m lines ≡ ok next
      → snap_lines ledger cid m (lines ++ l ∷ []) ≡ snap_line ledger cid next l
  unfolding snap_lines
  snap_lines-append m next [] l h =
      let e : m ≡ next = ground (arith, h) in
      elim (Result-cases (snap_line ledger cid next l)) [
        | inl (x, p) ↦ ground (arith, e, p)
        | inr (x, p) ↦ ground (arith, e, p)
      ]
  snap_lines-append m next (k ∷ lines) l h = elim (Result-cases (snap_line ledger cid m k)) [
    | inr (x, p) ↦ ground (arith, h, p)
    | inl (x, p) ↦ ground (arith, p, snap_lines-append x next lines l (ground (arith, h, p)))
  ]

  snap_members-other :
      (m : SeqMap Snap) (after : List MemberAfter)
      → contains cid (after_cids after) ≡ false
      → snap_members ledger cid m after ≡ ok m
  unfolding snap_members
  snap_members-other m [] h = refl
  snap_members-other m (a ∷ rest) h = ground (arith, h, snap_members-other m rest)

  -- The one entry of the order.
  pub snap_members-find :
      (m : SeqMap Snap) (after : List MemberAfter)
      → Distinct (after_cids after)
      → snap_members ledger cid m after ≡ elim (find_after cid after) [
        | none ↦ ok m
        | some a ↦ insert_snap ledger cid m a.seq a.state_after a.ctx_after
      ]
  unfolding snap_members find_after
  snap_members-find m [] d = refl
  snap_members-find m (a ∷ rest) (fresh, d) = elim (Bool-cases (same_text a.client_order_id cid)) [
    | inr other ↦ ground (arith, other, snap_members-find m rest d)
    | inl own ↦
        let same_cid : a.client_order_id ≡ cid =
          ground (arith, own, eq_iff a.client_order_id cid) in
        let free : contains cid (after_cids rest) ≡ false =
          subst (λ (c : ClientOrderId). contains c (after_cids rest) ≡ false) same_cid fresh in
        elim (Result-cases (insert_snap ledger cid m a.seq a.state_after a.ctx_after)) [
          | inr (x, p) ↦ ground (arith, own, p)
          | inl (x, p) ↦ ground (arith, own, p, snap_members-other x rest free)
        ]
  ]

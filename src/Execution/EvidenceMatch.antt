-- ===== src/Execution/EvidenceMatch.antt =====
-- What a batch's evidence agrees on with the fills of its event.
use omsrs.Prelude.{
  ℕ, suc, ◌≡◌, ◌⊎◌, ◌↔◌, inl, inr, refl, Option, none, some, List, [], ◌∷◌, Bool, true, ◌==◌,
  same_text, eq_iff, arith, length, String,
}
use omsrs.Lifecycle.Types.{FillRecord}
use omsrs.Execution.Types.{ExecutionEvidence, ok, MismatchDetail}
use omsrs.Execution.Evidence.{
  option_mismatch, fill_mismatch, check_from, check_evidence_matches_fills,
}

-- The evidence may say more than the event, never something else.
abbrev pub Covers {ℓ} : {A : Type ℓ} → Option A → Option A → Type ℓ
Covers event evidence = (event ≡ none) ⊎ (evidence ≡ event)

pub record Agrees (f : FillRecord) (e : ExecutionEvidence) : Type 0 where
  pub id : f.fill_id ≡ e.execution_id
  pub qty : f.qty ≡ e.qty
  pub price : f.price_cents ≡ e.price_cents
  pub venue : Covers f.venue_order_id e.venue_order_id
  pub fee : Covers f.fee_cents e.fee_cents

-- Position by position, to the end of both lists.
abbrev pub AllAgree : List FillRecord → List ExecutionEvidence → Type 0
AllAgree [] [] = Unit
AllAgree [] (e ∷ es) = ⊥
AllAgree (f ∷ fs) [] = ⊥
AllAgree (f ∷ fs) (e ∷ es) = Agrees f e × AllAgree fs es

option_mismatch-Covers {ℓ} :
    {A : Type ℓ} (same : A → A → Bool) (differs : A → A → MismatchDetail) (missing : MismatchDetail)
    (sound : (a b : A) → same a b ≡ true → a ≡ b) (a b : Option A)
    → option_mismatch same differs missing a b ≡ none
    → Covers a b
unfolding option_mismatch
option_mismatch-Covers same differs missing sound none b h = inl refl
option_mismatch-Covers same differs missing sound (some a) none h = cc
option_mismatch-Covers same differs missing sound (some a) (some b) h =
    inr (ground (arith, sound a b, h))

Covers-option_mismatch {ℓ} :
    {A : Type ℓ} (same : A → A → Bool) (differs : A → A → MismatchDetail) (missing : MismatchDetail)
    (complete : (a : A) → same a a ≡ true) (a b : Option A)
    → Covers a b
    → option_mismatch same differs missing a b ≡ none
unfolding option_mismatch
Covers-option_mismatch same differs missing complete none b c = refl
Covers-option_mismatch same differs missing complete (some a) none c = ground (arith, c)
Covers-option_mismatch same differs missing complete (some a) (some b) c =
    ground (arith, c, complete a)

number_eq : (a b : ℕ) → (a == b) ≡ true → a ≡ b
number_eq a b h = ground arith

number_refl : (a : ℕ) → (a == a) ≡ true
number_refl a = ground arith

text_eq : (a b : String) → same_text a b ≡ true → a ≡ b
text_eq a b = (eq_iff a b).0

text_refl : (a : String) → same_text a a ≡ true
text_refl a = (eq_iff a a).1 refl

fill_mismatch-Agrees :
    (f : FillRecord) (e : ExecutionEvidence) → fill_mismatch f e ≡ none → Agrees f e
unfolding fill_mismatch
fill_mismatch-Agrees f e h = ground (
  arith,
  eq_iff f.fill_id e.execution_id,
  option_mismatch-Covers same_text MismatchDetail.venue_order_id
      MismatchDetail.venue_order_id_missing text_eq f.venue_order_id e.venue_order_id,
  option_mismatch-Covers ◌==◌ MismatchDetail.fee_cents MismatchDetail.fee_cents_missing number_eq
      f.fee_cents e.fee_cents,
)

Agrees-fill_mismatch :
    (f : FillRecord) (e : ExecutionEvidence) → Agrees f e → fill_mismatch f e ≡ none
unfolding fill_mismatch
Agrees-fill_mismatch f e a = ground (
  arith,
  eq_iff f.fill_id e.execution_id,
  Covers-option_mismatch same_text MismatchDetail.venue_order_id
      MismatchDetail.venue_order_id_missing text_refl f.venue_order_id e.venue_order_id (a.venue),
  Covers-option_mismatch ◌==◌ MismatchDetail.fee_cents MismatchDetail.fee_cents_missing number_refl
      f.fee_cents e.fee_cents (a.fee),
)

check_from-AllAgree :
    (i : ℕ) (fs : List FillRecord) (es : List ExecutionEvidence)
    → length fs ≡ length es
    → check_from i fs es ≡ ok tt
    → AllAgree fs es
unfolding check_from
check_from-AllAgree i [] [] n h = tt
check_from-AllAgree i [] (e ∷ es) n h = absurd (omega (arith, n))
check_from-AllAgree i (f ∷ fs) [] n h = absurd (omega (arith, n))
check_from-AllAgree i (f ∷ fs) (e ∷ es) n h =
    ground
      (arith, fill_mismatch-Agrees f e, check_from-AllAgree (suc i) fs es (omega (arith, n)), h)

AllAgree-check_from :
    (i : ℕ) (fs : List FillRecord) (es : List ExecutionEvidence)
    → AllAgree fs es
    → (length fs ≡ length es) × (check_from i fs es ≡ ok tt)
unfolding check_from
AllAgree-check_from i [] [] a = (refl, refl)
AllAgree-check_from i [] (e ∷ es) a = absurd a
AllAgree-check_from i (f ∷ fs) [] a = absurd a
AllAgree-check_from i (f ∷ fs) (e ∷ es) a =
    ground (arith, Agrees-fill_mismatch f e a.0, AllAgree-check_from (suc i) fs es a.1)

-- check_evidence_matches_fills accepts a list of fills and a list of evidences exactly where they
-- have the same length and agree position by position: same id, quantity and price, and a venue id
-- or fee that the fill names is the evidence's.
pub check_evidence-AllAgree :
    (fs : List FillRecord) (es : List ExecutionEvidence)
    → (check_evidence_matches_fills fs es ≡ ok tt) ↔ AllAgree fs es
unfolding check_evidence_matches_fills
check_evidence-AllAgree fs es = (
  λ h. check_from-AllAgree 0 fs es (ground (arith, h)) (ground (arith, h)),
  λ a. ground (arith, AllAgree-check_from 0 fs es a),
)

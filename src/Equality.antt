-- ===== src/Equality.antt =====
-- The derived `PartialEq` of the types that are compared whole, as decisions of equality.
use mathlib.Core.List.{List-discrete}
use native.Mathlib.Decide.{ℕ_discrete}
use omsrs.Prelude.{
  String, Bool, true, false, ◌≡◌, ◌≢◌, refl, ◌⊎◌, inl, inr, same_text, eq_iff, Bool-cases, arith,
}
use omsrs.Prelude.Int.{ℤ}
use omsrs.Lifecycle.Types.{HaltReason, RejectReason, OrderState, FillPayload}
use omsrs.Lifecycle.Ctx.{OrderCtx}
use omsrs.Lifecycle.Events.{JournalRecord}

-- `==` of two values whose equality is decided.
abbrev pub same {ℓ} : {A : Type ℓ} → Discrete A → A → A → Bool
same d a b = elim (d a b) [ yes _ ↦ true | no _ ↦ false ]

pub same_refl {ℓ} : {A : Type ℓ} (d : Discrete A) (a : A) → same d a a ≡ true
same_refl d a = elim (d a a) as (λ e. elim e [ yes _ ↦ true | no _ ↦ false ] ≡ true) [
  | yes p ↦ refl
  | no n ↦ absurd (n refl)
]

-- Two values are the same, or the test says that they are not.
pub same-cases {ℓ} :
    {A : Type ℓ} (d : Discrete A) (a b : A)
    → ((a ≡ b) × (same d a b ≡ true)) ⊎ ((a ≢ b) × (same d a b ≡ false))
same-cases d a b =
    elim (d a b)
      as (λ e.
        ((a ≡ b) × (elim e [ yes _ ↦ true | no _ ↦ false ] ≡ true))
        ⊎ ((a ≢ b) × (elim e [ yes _ ↦ true | no _ ↦ false ] ≡ false))) [
          | yes p ↦ inl (p, refl)
          | no n ↦ inr (n, refl)
        ]

unfoldable pub String-discrete : Discrete String
String-discrete s t = elim (Bool-cases (same_text s t)) [
  | inl e ↦ yes ((eq_iff s t).0 e)
  | inr e ↦ no (λ p. cc ((eq_iff s t).1 p))
]

unfoldable pub ℤ-discrete : Discrete ℤ
ℤ-discrete = hlevel ℕ_discrete

unfoldable pub HaltReason-discrete : Discrete HaltReason
HaltReason-discrete = hlevel (ℕ_discrete, String-discrete)

unfoldable pub RejectReason-discrete : Discrete RejectReason
RejectReason-discrete = hlevel String-discrete

unfoldable pub OrderState-discrete : Discrete OrderState
OrderState-discrete = hlevel (ℕ_discrete, String-discrete, HaltReason-discrete)

unfoldable pub FillPayload-discrete : Discrete FillPayload
FillPayload-discrete = hlevel (ℕ_discrete, String-discrete, ℤ-discrete)

unfoldable pub OrderCtx-discrete : Discrete OrderCtx
OrderCtx-discrete =
    hlevel (ℕ_discrete, String-discrete, ℤ-discrete, FillPayload-discrete, List-discrete)

unfoldable pub JournalRecord-discrete : Discrete JournalRecord
JournalRecord-discrete = hlevel (ℕ_discrete, String-discrete, ℤ-discrete, HaltReason-discrete)

pub same_of_eq {ℓ} : {A : Type ℓ} (d : Discrete A) (a b : A) → a ≡ b → same d a b ≡ true
same_of_eq d a b e = rw e (same_refl d b)

pub eq_of_same {ℓ} : {A : Type ℓ} (d : Discrete A) (a b : A) → same d a b ≡ true → a ≡ b
eq_of_same d a b h = elim (same-cases d a b) [ inl p ↦ p.0 | inr n ↦ ground (arith, n.1, h) ]

pub same_of_ne {ℓ} : {A : Type ℓ} (d : Discrete A) (a b : A) → a ≢ b → same d a b ≡ false
same_of_ne d a b n = elim (same-cases d a b) [ inl p ↦ absurd (n (p.0)) | inr m ↦ m.1 ]

-- ===== src/Common/Returns.antt =====
-- What holds of the result of a call, if it returns.
use mathlib.Core.Path.{◌≡◌, refl}
use mathlib.Core.Bool.{Bool, true, false}
use kcpserver_cpp.Common.Tests.{
  if◌then◌else◌, Outcome, ok, abort, hang, ◌>>=◌, both_return, ok-injective,
}

pub record Each {ℓ κ} {A : Type ℓ} (P : A → Type κ) (o : Outcome A) : Type (ℓ ⊔ κ) where
  pub holds : (a : A) → o ≡ ok a → P a

module _ {ℓ κ} {A : Type ℓ} {P : A → Type κ} where
  pub Each-ok : {a : A} → P a → Each P (ok a)
  Each-ok p = record { holds = λ b e. rw (← ok-injective e) p }

  pub Each-abort : Each P abort
  Each-abort = record { holds = λ b e. cc }

  pub Each-hang : Each P hang
  Each-hang = record { holds = λ b e. cc }

  pub Each-if : (b : Bool) {x y : Outcome A} → Each P x → Each P y → Each P (if b then x else y)
  Each-if true p q = p
  Each-if false p q = q

  pub Each-bind {ℓ' κ'} :
      {B : Type ℓ'} {Q : B → Type κ'} {m : Outcome A} {f : A → Outcome B}
      → Each P m
      → ((a : A) → P a → Each Q (f a))
      → Each Q (m >>= f)
  Each-bind {m} {f} p h = record {
    holds = λ b e. let (a, e₁, e₂) = both_return m f e in (h a (p.holds a e₁)).holds b e₂;
  }

-- What needs nothing of the result.
pub Each-any {ℓ} : {A : Type ℓ} (o : Outcome A) → Each (λ _. Unit {0}) o
Each-any o = record { holds = λ a e. tt }

pub Each-map {ℓ κ κ'} :
    {A : Type ℓ} {P : A → Type κ} {Q : A → Type κ'} {o : Outcome A}
    → ((a : A) → P a → Q a)
    → Each P o
    → Each Q o
Each-map f e = record { holds = λ a q. f a (e.holds a q) }

-- The call returns, and its result satisfies `P`.
abbrev pub Gives {ℓ κ} : {A : Type ℓ} → (A → Type κ) → Outcome A → Type (ℓ ⊔ κ)
Gives {A} P o = (a : A) × (o ≡ ok a) × P a

module _ {ℓ κ} {A : Type ℓ} {P : A → Type κ} where
  pub Gives-ok : {a : A} → P a → Gives P (ok a)
  Gives-ok {a} p = (a, refl, p)

  pub Gives-if : (b : Bool) {x y : Outcome A} → Gives P x → Gives P y → Gives P (if b then x else y)
  Gives-if true p q = p
  Gives-if false p q = q

  pub Gives-bind {ℓ' κ'} :
      {B : Type ℓ'} {Q : B → Type κ'} {m : Outcome A} {f : A → Outcome B}
      → Gives P m
      → ((a : A) → P a → Gives Q (f a))
      → Gives Q (m >>= f)
  Gives-bind {f} (a, e, p) h = rw e (h a p)

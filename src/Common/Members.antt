-- ===== src/Common/Members.antt =====
-- Membership in a list of numbers, and lists without repetition.
use Prim.Native.Nat.{ℕ}
use mathlib.Core.Path.{◌≡◌, sym}
use mathlib.Core.Logic.{◌⊎◌, inl, inr}
use mathlib.Core.List.{List, [], ◌∷◌, ◌++◌}

abbrev pub IsIn : ℕ → List ℕ → Type 0
IsIn a [] = ⊥
IsIn a (x ∷ xs) = (a ≡ x) ⊎ IsIn a xs

abbrev pub IsUnique : List ℕ → Type 0
IsUnique [] = Unit {0}
IsUnique (x ∷ xs) = (IsIn x xs → ⊥) × IsUnique xs

pub IsIn-append : (a b : ℕ) (xs : List ℕ) → IsIn a (xs ++ (b ∷ [])) → IsIn a xs ⊎ (a ≡ b)
IsIn-append a b [] (inl e) = inr e
IsIn-append a b [] (inr e) = absurd e
IsIn-append a b (x ∷ xs) (inl e) = inl (inl e)
IsIn-append a b (x ∷ xs) (inr e) = elim (IsIn-append a b xs e) [
  | inl h ↦ inl (inr h)
  | inr h ↦ inr h
]

pub IsUnique-append :
    (b : ℕ) (xs : List ℕ) → IsUnique xs → (IsIn b xs → ⊥) → IsUnique (xs ++ (b ∷ []))
IsUnique-append b [] u n = ((λ e. e), tt)
IsUnique-append b (x ∷ xs) (m, u) n = (
  (λ h. elim (IsIn-append x b xs h) [ inl i ↦ m i | inr e ↦ n (inl (sym e)) ]),
  IsUnique-append b xs u (λ i. n (inr i)),
)

-- One more in the middle.
pub IsIn-middle :
    (b a : ℕ) (xs ys : List ℕ) → IsIn b ((xs ++ (a ∷ [])) ++ ys) → IsIn b (xs ++ ys) ⊎ (b ≡ a)
IsIn-middle b a [] ys (inl e) = inr e
IsIn-middle b a [] ys (inr i) = inl i
IsIn-middle b a (x ∷ xs) ys (inl e) = inl (inl e)
IsIn-middle b a (x ∷ xs) ys (inr i) = elim (IsIn-middle b a xs ys i) [
  | inl h ↦ inl (inr h)
  | inr h ↦ inr h
]

pub IsUnique-middle :
    (a : ℕ) (xs ys : List ℕ)
    → IsUnique (xs ++ ys)
    → (IsIn a (xs ++ ys) → ⊥)
    → IsUnique ((xs ++ (a ∷ [])) ++ ys)
IsUnique-middle a [] ys u n = (n, u)
IsUnique-middle a (x ∷ xs) ys (m, u) n = (
  (λ h. elim (IsIn-middle x a xs ys h) [ inl i ↦ m i | inr e ↦ n (inl (sym e)) ]),
  IsUnique-middle a xs ys u (λ i. n (inr i)),
)

-- ===== src/Common/Maps.antt =====
-- std::map as a list of entries in the order of the keys. The order is a parameter, since the maps
-- are keyed by unsigned and by signed integers. The laws hold for any order.
use Prim.Native.Nat.{ℕ}
use mathlib.Core.Path.{◌≡◌, refl}
use mathlib.Core.Bool.{Bool}
use mathlib.Core.List.{List, [], ◌∷◌}
use mathlib.Core.Option.{Option, none, some}
use native.Mathlib.Omega.{arith}
use mathlib.Core.Bool.{true}
use mathlib.Core.Logic.{◌⊎◌, inl, inr}
use mathlib.Core.Path.{sym, ◌∙◌}
use kcpserver_cpp.Common.Tests.{
  ◌==◌, if◌then◌else◌, Bool-cases, eq_of_==, neq_false, ne_of_neq, some-injective, none_ne_some,
}

abbrev pub Map {ℓ} : Type ℓ → Type ℓ
Map V = List (ℕ × V)

module _ {ℓ} {V : Type ℓ} where
  unfoldable pub lookup : ℕ → Map V → Option V
  lookup k [] = none
  lookup k ((j, v) ∷ m) = if j == k then some v else lookup k m

  unfoldable pub insert_by : (ℕ → ℕ → Bool) → ℕ → V → Map V → Map V
  insert_by lt k v [] = (k, v) ∷ []
  insert_by lt k v ((j, w) ∷ m) =
      if j == k
      then (k, v) ∷ m
      else if lt k j
      then (k, v) ∷ (j, w) ∷ m
      else (j, w) ∷ insert_by lt k v m

  unfoldable pub erase : ℕ → Map V → Map V
  erase k [] = []
  erase k ((j, v) ∷ m) = if j == k then erase k m else (j, v) ∷ erase k m

  pub lookup-insert_by :
      (lt : ℕ → ℕ → Bool) (k j : ℕ) (v : V) (m : Map V)
      → lookup j (insert_by lt k v m) ≡ (if k == j then some v else lookup j m)
  unfolding lookup insert_by
  lookup-insert_by lt k j v [] = refl
  lookup-insert_by lt k j v ((i, w) ∷ m) = ground (arith, lookup-insert_by lt k j v m)

  pub lookup-erase :
      (k j : ℕ) (m : Map V) → lookup j (erase k m) ≡ (if k == j then none else lookup j m)
  unfolding lookup erase
  lookup-erase k j [] = ground arith
  lookup-erase k j ((i, w) ∷ m) = ground (arith, lookup-erase k j m)

  pub lookup_erased :
      (k j : ℕ) (m : Map V) (v : V)
      → lookup j (erase k m) ≡ some v
      → (k ≡ j → ⊥) × (lookup j m ≡ some v)
  lookup_erased k j m v e =
      let h : (if k == j then none else lookup j m) ≡ some v = sym (lookup-erase k j m) ∙ e in
      elim (Bool-cases (k == j)) [
        | inl t ↦ absurd (none_ne_some (rw t at h))
        | inr f ↦ (ne_of_neq k j f, rw f at h)
      ]

  pub lookup_not_erased : (k j : ℕ) (m : Map V) → (k ≡ j → ⊥) → lookup j (erase k m) ≡ lookup j m
  lookup_not_erased k j m n = lookup-erase k j m ∙ rw (neq_false k j n)

  pub lookup_inserted :
      (lt : ℕ → ℕ → Bool) (k j : ℕ) (v w : V) (m : Map V)
      → lookup j (insert_by lt k v m) ≡ some w
      → ((k ≡ j) × (v ≡ w)) ⊎ (lookup j m ≡ some w)
  lookup_inserted lt k j v w m e =
      let h = sym (lookup-insert_by lt k j v m) ∙ e in
      elim (Bool-cases (k == j)) [
        | inl t ↦ inl (eq_of_== k j t, some-injective (rw t at h))
        | inr f ↦ inr (rw f at h)
      ]

  pub lookup_new :
      (lt : ℕ → ℕ → Bool) (k : ℕ) (v : V) (m : Map V) → lookup k (insert_by lt k v m) ≡ some v
  lookup_new lt k v m = let t : (k == k) ≡ true = ground arith in lookup-insert_by lt k k v m ∙ rw t

  pub lookup_old :
      (lt : ℕ → ℕ → Bool) (k j : ℕ) (v : V) (m : Map V)
      → (k ≡ j → ⊥)
      → lookup j (insert_by lt k v m) ≡ lookup j m
  lookup_old lt k j v m n = lookup-insert_by lt k j v m ∙ rw (neq_false k j n)

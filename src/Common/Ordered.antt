-- ===== src/Common/Ordered.antt =====
-- A std::map by `int`: its keys stand in their order, so that each occurs once.
use Prim.Native.Nat.{ℕ, ◌^◌, ◌<◌}
use mathlib.Core.Path.{◌≡◌}
use mathlib.Core.Bool.{true, false}
use mathlib.Core.List.{[], ◌∷◌}
use mathlib.Core.Logic.{inl, inr}
use native.Mathlib.Omega.{arith}
use kcpserver_cpp.Common.Tests.{◌==◌, Bool-cases, eq_of_==, ne_of_neq, int_ltb, ltb}
use kcpserver_cpp.Common.Maps.{Map, insert_by, erase}
use kcpserver_cpp.Common.Members.{IsIn, IsUnique}
use kcpserver_cpp.Common.Keys.{keys, IsIn-insert_by, IsIn-erase}

ltb_trans : (a b c : ℕ) → ltb a b ≡ true → ltb b c ≡ true → ltb a c ≡ true
ltb_trans a b c p q = ground arith

int_ltb_trans : (a b c : ℕ) → int_ltb a b ≡ true → int_ltb b c ≡ true → int_ltb a c ≡ true
int_ltb_trans a b c p q = ltb_trans _ _ _ p q

int_ltb_total :
    (a b : ℕ) → a < 2 ^ 32 → b < 2 ^ 32 → int_ltb a b ≡ false → (b ≡ a → ⊥) → int_ltb b a ≡ true
int_ltb_total a b h k f n = ground arith

int_ltb_irrefl : (a : ℕ) → int_ltb a a ≡ true → ⊥
int_ltb_irrefl a h = ground arith

module _ {ℓ} {V : Type ℓ} where
  -- Every key is an `int`, and comes before those behind it.
  abbrev pub IsOrdered : Map V → Type 0
  IsOrdered [] = Unit {0}
  IsOrdered ((k, v) ∷ m) =
      (k < 2 ^ 32) × ((j : ℕ) → IsIn j (keys m) → int_ltb k j ≡ true) × IsOrdered m

  pub insert_int-IsOrdered :
      (k : ℕ) (v : V) (m : Map V) → k < 2 ^ 32 → IsOrdered m → IsOrdered (insert_by int_ltb k v m)
  unfolding insert_by
  insert_int-IsOrdered k v [] h o = (h, (λ j i. absurd i), tt)
  insert_int-IsOrdered k v ((i, w) ∷ m) h (small, above, o) = elim (Bool-cases (i == k)) [
    | inl t ↦ let q = eq_of_== i k t in rw t (h, rw q at above, o)
    | inr f ↦ elim (Bool-cases (int_ltb k i)) [
      | inl t ↦
          rw (f, t)
            (
              h,
              (λ j p. elim p [
                | inl e ↦ rw e t
                | inr there ↦ int_ltb_trans k i j t (above j there)
              ]),
              (small, above, o),
            )
      | inr g ↦
          rw (f, g)
            (
              small,
              (λ j p. elim (IsIn-insert_by int_ltb k j v m p) [
                | inl e ↦ rw e (int_ltb_total k i h small g (ne_of_neq i k f))
                | inr there ↦ above j there
              ]),
              insert_int-IsOrdered k v m h o,
            )
    ]
  ]

  pub erase-IsOrdered : (k : ℕ) (m : Map V) → IsOrdered m → IsOrdered (erase k m)
  unfolding erase
  erase-IsOrdered k [] o = tt
  erase-IsOrdered k ((i, w) ∷ m) (small, above, o) = elim (Bool-cases (i == k)) [
    | inl t ↦ rw t (erase-IsOrdered k m o)
    | inr f ↦ rw f (small, (λ j p. above j (IsIn-erase k j m p)), erase-IsOrdered k m o)
  ]

  pub IsOrdered-IsUnique : (m : Map V) → IsOrdered m → IsUnique (keys m)
  IsOrdered-IsUnique [] o = tt
  IsOrdered-IsUnique ((k, v) ∷ m) (small, above, o) =
      ((λ i. int_ltb_irrefl k (above k i)), IsOrdered-IsUnique m o)

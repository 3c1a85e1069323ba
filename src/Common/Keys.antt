-- ===== src/Common/Keys.antt =====
-- The keys of a std::map: each occurs once, and so an entry that a loop finds is the one of its key.
use Prim.Native.Nat.{ℕ}
use mathlib.Core.Path.{◌≡◌, sym, ◌∙◌}
use mathlib.Core.Bool.{Bool}
use mathlib.Core.List.{List, [], ◌∷◌}
use mathlib.Core.Logic.{◌⊎◌, inl, inr}
use mathlib.Core.Option.{none, some}
use kcpserver_cpp.Common.Tests.{◌==◌, Bool-cases, eq_same, neq_false, none_ne_some, ne_of_neq}
use kcpserver_cpp.Common.Maps.{Map, lookup, insert_by, erase, lookup_not_erased}
use kcpserver_cpp.Common.Members.{IsIn, IsUnique}

module _ {ℓ} {V : Type ℓ} where
  abbrev pub keys : Map V → List ℕ
  keys [] = []
  keys ((k, v) ∷ m) = k ∷ keys m

  pub IsIn-insert_by :
      (lt : ℕ → ℕ → Bool) (k j : ℕ) (v : V) (m : Map V)
      → IsIn j (keys (insert_by lt k v m))
      → (j ≡ k) ⊎ IsIn j (keys m)
  unfolding insert_by
  IsIn-insert_by lt k j v [] (inl e) = inl e
  IsIn-insert_by lt k j v [] (inr e) = absurd e
  IsIn-insert_by lt k j v ((i, w) ∷ m) h = elim (Bool-cases (i == k)) [
    | inl t ↦ elim (rw t at h) [ inl e ↦ inl e | inr e ↦ inr (inr e) ]
    | inr f ↦ elim (Bool-cases (lt k i)) [
      | inl t ↦ rw (f, t) at h
      | inr g ↦
          let h' : (j ≡ i) ⊎ IsIn j (keys (insert_by lt k v m)) = rw (f, g) at h in
          elim h' [
            | inl e ↦ inr (inl e)
            | inr e ↦ elim (IsIn-insert_by lt k j v m e) [ inl e' ↦ inl e' | inr e' ↦ inr (inr e') ]
          ]
    ]
  ]

  pub IsIn-erase : (k j : ℕ) (m : Map V) → IsIn j (keys (erase k m)) → IsIn j (keys m)
  unfolding erase
  IsIn-erase k j [] h = h
  IsIn-erase k j ((i, w) ∷ m) h = elim (Bool-cases (i == k)) [
    | inl t ↦ inr (IsIn-erase k j m (rw t at h))
    | inr f ↦
        let h' : (j ≡ i) ⊎ IsIn j (keys (erase k m)) = rw f at h in
        elim h' [ inl e ↦ inl e | inr e ↦ inr (IsIn-erase k j m e) ]
  ]

  lookup-none : (k : ℕ) (m : Map V) → lookup k m ≡ none → IsIn k (keys m) → ⊥
  unfolding lookup
  lookup-none k [] e h = h
  lookup-none k ((i, w) ∷ m) e h = elim (Bool-cases (i == k)) [
    | inl t ↦ none_ne_some (sym (rw t at e))
    | inr f ↦ elim h [
      | inl p ↦ ne_of_neq i k f (sym p)
      | inr there ↦ lookup-none k m (rw f at e) there
    ]
  ]

  pub insert_by-IsUnique :
      (lt : ℕ → ℕ → Bool) (k : ℕ) (v : V) (m : Map V)
      → IsUnique (keys m)
      → lookup k m ≡ none
      → IsUnique (keys (insert_by lt k v m))
  unfolding insert_by lookup
  insert_by-IsUnique lt k v [] u e = ((λ h. h), tt)
  insert_by-IsUnique lt k v ((i, w) ∷ m) (n, u) e = elim (Bool-cases (i == k)) [
    | inl t ↦ absurd (none_ne_some (sym (rw t at e)))
    | inr f ↦
        let e' : lookup k m ≡ none = rw f at e in
        elim (Bool-cases (lt k i)) [
          | inl t ↦
              rw (f, t)
                (
                  (λ h. elim h [
                    | inl p ↦ ne_of_neq i k f (sym p)
                    | inr there ↦ lookup-none k m e' there
                  ]),
                  (n, u),
                )
          | inr g ↦
              rw (f, g)
                (
                  (λ h. elim (IsIn-insert_by lt k i v m h) [
                    | inl p ↦ ne_of_neq i k f p
                    | inr there ↦ n there
                  ]),
                  insert_by-IsUnique lt k v m u e',
                )
        ]
  ]

  pub erase-IsUnique : (k : ℕ) (m : Map V) → IsUnique (keys m) → IsUnique (keys (erase k m))
  unfolding erase
  erase-IsUnique k [] u = tt
  erase-IsUnique k ((i, w) ∷ m) (n, u) = elim (Bool-cases (i == k)) [
    | inl t ↦ rw t (erase-IsUnique k m u)
    | inr f ↦ rw f ((λ h. n (IsIn-erase k i m h)), erase-IsUnique k m u)
  ]

  -- Each entry of the first list is found in the second.
  abbrev pub AllFound : Map V → Map V → Type ℓ
  AllFound [] m = Unit
  AllFound ((k, v) ∷ es) m = (lookup k m ≡ some v) × AllFound es m

  AllFound-cons :
      (k : ℕ) (v : V) (es m : Map V)
      → (IsIn k (keys es) → ⊥)
      → AllFound es m
      → AllFound es ((k, v) ∷ m)
  unfolding lookup
  AllFound-cons k v [] m n a = tt
  AllFound-cons k v ((j, w) ∷ es) m n (e, a) =
      (rw (lookup, neq_false k j (λ p. n (inl p))) e, AllFound-cons k v es m (λ i. n (inr i)) a)

  pub AllFound-refl : (m : Map V) → IsUnique (keys m) → AllFound m m
  unfolding lookup
  AllFound-refl [] u = tt
  AllFound-refl ((k, v) ∷ m) (n, u) =
      (rw (lookup, eq_same), AllFound-cons k v m m n (AllFound-refl m u))

  pub AllFound-erase :
      (k : ℕ) (es m : Map V) → (IsIn k (keys es) → ⊥) → AllFound es m → AllFound es (erase k m)
  AllFound-erase k [] m n a = tt
  AllFound-erase k ((j, w) ∷ es) m n (e, a) =
      (lookup_not_erased k j m (λ q. n (inl q)) ∙ e, AllFound-erase k es m (λ i. n (inr i)) a)

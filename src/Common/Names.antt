-- ===== src/Common/Names.antt =====
-- std::map by std::string, as a list of entries in the order of the bytes of the names.
use Prim.Native.Nat.{ℕ}
use mathlib.Core.Bool.{Bool, true, false}
use mathlib.Core.Option.{Option, none, some}
use mathlib.Core.List.{List, [], ◌∷◌}
use kcpserver_cpp.Common.Tests.{ltb, if◌then◌else◌}
use kcpserver_cpp.Common.Memory.{Bytes, eq_bytes}

unfoldable pub bytes_ltb : Bytes → Bytes → Bool
bytes_ltb xs [] = false
bytes_ltb [] (y ∷ ys) = true
bytes_ltb (x ∷ xs) (y ∷ ys) =
    let later = bytes_ltb xs ys in if ltb x y then true else (if ltb y x then false else later)

unfoldable pub lookup_name : Bytes → List (Bytes × ℕ) → Option ℕ
lookup_name k [] = none
lookup_name k ((j, v) ∷ m) = let later = lookup_name k m in if eq_bytes j k then some v else later

unfoldable pub insert_name : Bytes → ℕ → List (Bytes × ℕ) → List (Bytes × ℕ)
insert_name k v [] = (k, v) ∷ []
insert_name k v ((j, w) ∷ m) =
    let later = insert_name k v m in
    if eq_bytes j k
    then (k, v) ∷ m
    else (if bytes_ltb k j then (k, v) ∷ (j, w) ∷ m else (j, w) ∷ later)

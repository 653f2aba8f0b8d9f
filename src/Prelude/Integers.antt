-- ===== src/Prelude/Integers.antt =====
-- Python's whole numbers over the native naturals: `negsuc n` is -(n + 1).
use Prim.Native.Nat.{ℕ}
use mathlib.Core.Bool.{Bool, true, false, ◌&&◌}
use mathlib.Core.List.{List, [], ◌∷◌}
use submissions_checker.Prelude.Tests.{◌==◌, leb, if◌then◌else◌}

pub data ℤ : Type 0 where
  pos : ℕ → ℤ
  negsuc : ℕ → ℤ

abbrev pub ℤ_eq : ℤ → ℤ → Bool
ℤ_eq (pos a) (pos b) = a == b
ℤ_eq (negsuc a) (negsuc b) = a == b
ℤ_eq (pos a) (negsuc b) = false
ℤ_eq (negsuc a) (pos b) = false

abbrev pub ℤ_leb : ℤ → ℤ → Bool
ℤ_leb (pos a) (pos b) = leb a b
ℤ_leb (negsuc a) (negsuc b) = leb b a
ℤ_leb (pos a) (negsuc b) = false
ℤ_leb (negsuc a) (pos b) = true

-- `xs == ys` and `sorted(xs)` on lists of whole numbers.
abbrev pub ℤs_eq : List ℤ → List ℤ → Bool
ℤs_eq [] [] = true
ℤs_eq [] (y ∷ ys) = false
ℤs_eq (x ∷ xs) [] = false
ℤs_eq (x ∷ xs) (y ∷ ys) = ℤ_eq x y && ℤs_eq xs ys

abbrev pub insert_sorted_ℤ : ℤ → List ℤ → List ℤ
insert_sorted_ℤ a [] = a ∷ []
insert_sorted_ℤ a (x ∷ xs) = if ℤ_leb a x then a ∷ x ∷ xs else x ∷ insert_sorted_ℤ a xs

abbrev pub sorted_ℤ : List ℤ → List ℤ
sorted_ℤ [] = []
sorted_ℤ (x ∷ xs) = insert_sorted_ℤ x (sorted_ℤ xs)

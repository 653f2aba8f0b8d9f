-- ===== src/Prelude/CodePoints.antt =====
-- Python's texts as lists of code points, where the program looks inside them.
use Prim.Native.Nat.{ℕ}
use mathlib.Core.Path.{◌≡◌, refl}
use mathlib.Core.Logic.{◌↔◌}
use mathlib.Core.Bool.{Bool, true, false, ◌&&◌}
use mathlib.Core.Option.{Option, none, some}
use mathlib.Core.List.{List, [], ◌∷◌}
use native.Mathlib.Omega.{arith}
use submissions_checker.Prelude.Tests.{◌==◌, if◌then◌else◌}

abbrev pub Codes : Type 0
Codes = List ℕ

abbrev pub codes_eq : Codes → Codes → Bool
codes_eq [] [] = true
codes_eq [] (d ∷ t) = false
codes_eq (c ∷ s) [] = false
codes_eq (c ∷ s) (d ∷ t) = c == d && codes_eq s t

pub codes_eq-eq : (s t : Codes) → codes_eq s t ≡ true → s ≡ t
codes_eq-eq [] [] h = refl
codes_eq-eq [] (d ∷ t) h = cc
codes_eq-eq (c ∷ s) [] h = cc
codes_eq-eq (c ∷ s) (d ∷ t) h = ground (arith, codes_eq-eq s t)

pub codes_eq_refl : (s : Codes) → codes_eq s s ≡ true
codes_eq_refl [] = refl
codes_eq_refl (c ∷ s) = ground (arith, codes_eq_refl s)

-- `k in d` and `d.get(k)` for a dict with texts for keys.
module _ {ℓ} {V : Type ℓ} where
  abbrev pub lookup_code : Codes → List (Codes × V) → Option V
  lookup_code k [] = none
  lookup_code k ((j, v) ∷ d) = if codes_eq k j then some v else lookup_code k d

  -- `d[k] = v`
  abbrev pub insert_code : Codes → V → List (Codes × V) → List (Codes × V)
  insert_code k v [] = (k, v) ∷ []
  insert_code k v ((j, w) ∷ d) = if codes_eq k j then (j, v) ∷ d else (j, w) ∷ insert_code k v d

pub codes_eq_iff : (s t : Codes) → (codes_eq s t ≡ true) ↔ (s ≡ t)
codes_eq_iff s t = (codes_eq-eq s t, λ e. rw e (codes_eq_refl t))

pub lookup_code-insert {ℓ} :
    {V : Type ℓ} (j k : Codes) (v : V) (d : List (Codes × V))
    → lookup_code j (insert_code k v d) ≡ (if codes_eq j k then some v else lookup_code j d)
lookup_code-insert j k v [] = refl
lookup_code-insert j k v ((i, w) ∷ d) =
    ground (arith, codes_eq_iff j k, codes_eq_iff k i, codes_eq_iff j i, lookup_code-insert j k v d)

-- ===== src/Quiz/Split.antt =====
-- services/quiz_split.py: the questions of one draw dealt to the members of a squad.
pub mod Deal
mod Examples
use submissions_checker.Prelude.{
  ℕ, zero, suc, ◌+◌, ◌%◌, Bool, not, Option, none, some, List, [], ◌∷◌, ◌++◌, map, filter, leb, ltb,
  if◌then◌else◌,
}

pub record DrawnQuestion : Type 0 where
  pub id : ℕ
  pub is_required : Bool

-- `slices[i].append(x)`; the index is always in range.
unfoldable pub append_at : ℕ → ℕ → List (List ℕ) → List (List ℕ)
append_at i x [] = []
append_at zero x (s ∷ slices) = (s ++ x ∷ []) ∷ slices
append_at (suc i) x (s ∷ slices) = s ∷ append_at i x slices

-- The loop over `enumerate(ordered)`, from `position`.
unfoldable pub deal : ℕ → ℕ → List DrawnQuestion → List (List ℕ) → List (List ℕ)
deal member_count position [] slices = slices
deal member_count position (q ∷ ordered) slices =
    deal member_count (position + 1) ordered (append_at (position % member_count) q.id slices)

unfoldable pub empty_slices : ℕ → List (List ℕ)
empty_slices zero = []
empty_slices (suc n) = [] ∷ empty_slices n

unfoldable pub required_first : List DrawnQuestion → List DrawnQuestion
required_first questions =
    filter (λ q. q.is_required) questions ++ filter (λ q. not q.is_required) questions

-- `none` is the ValueError of a count below 1.
unfoldable pub split_draw : List DrawnQuestion → ℕ → Option (List (List ℕ))
split_draw questions member_count =
    if ltb member_count 1
    then none
    else some (deal member_count 0 (required_first questions) (empty_slices member_count))

-- ===== src/Quiz/Split/Examples.antt =====
-- Five questions, two of them required, dealt to two and to three members.
use submissions_checker.Prelude.{◌≡◌, refl, true, false, none, some, List, [], ◌∷◌}
use submissions_checker.Quiz.Split.{
  DrawnQuestion, append_at, deal, empty_slices, required_first, split_draw,
}

abbrev draw : List DrawnQuestion
draw =
    record { id = 1; is_required = false }
    ∷ record { id = 2; is_required = true }
    ∷ record { id = 3; is_required = false }
    ∷ record { id = 4; is_required = true }
    ∷ record { id = 5; is_required = false }
    ∷ []

split_for_two : split_draw draw 2 ≡ some ((2 ∷ 1 ∷ 5 ∷ []) ∷ (4 ∷ 3 ∷ []) ∷ [])
unfolding split_draw deal append_at empty_slices required_first
split_for_two = refl

split_for_three : split_draw draw 3 ≡ some ((2 ∷ 3 ∷ []) ∷ (4 ∷ 5 ∷ []) ∷ (1 ∷ []) ∷ [])
unfolding split_draw deal append_at empty_slices required_first
split_for_three = refl

split_for_none : split_draw draw 0 ≡ none
unfolding split_draw
split_for_none = refl

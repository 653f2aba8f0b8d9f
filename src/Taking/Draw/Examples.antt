-- ===== src/Taking/Draw/Examples.antt =====
-- The theorems of the draw at a configuration of three questions, one of an unsupported type.
use submissions_checker.Prelude.{
  ℕ, ◌+◌, ◌-◌, ◌≤◌, ◌≡◌, refl, arith, Bool, true, false, Option, none, some, List, [], ◌∷◌, length,
  min, map, Codes, if◌then◌else◌, ℤ, pos,
}
use submissions_checker.Quiz.Split.Deal.{occurrences}
use submissions_checker.Taking.{Question, QuestionBody, single_choice, multiple_choice}
use submissions_checker.Taking.Answer.{Texts, RawAnswer, texts, ints, grade_answer}
use submissions_checker.Taking.Draw.{
  ConfigQuestion, QuizConfig, single_of_choices, unsupported, select_question_ids, required_ids,
  optional_ids, or_default, shuffle_body, get_elem?, snapshot_questions,
}
use submissions_checker.Taking.Draw.Selected.{IsShuffle, passes_at, select_question_ids-required}
use submissions_checker.Taking.Draw.Positions.{distinct}
use submissions_checker.Taking.Draw.Carried.{carried}
use submissions_checker.Taking.Draw.Shuffled.{options_of, fits, Picks, grade_answer-shuffle_body}
use submissions_checker.Taking.Share.{
  SquadDraw, SquadSnapshot, Shuffles, drawn, draw_for_member, stored_draw,
}
use submissions_checker.Taking.Share.Slices.{IsPartition, ids_of, draw_for_member-IsPartition}
use submissions_checker.Quiz.Split.{split_draw, deal, append_at, empty_slices, required_first}

abbrev asked : Bool → ConfigQuestion
asked required = record {
  body = single_of_choices (
      record { text = 65 ∷ []; is_correct = false }
      ∷ record { text = 66 ∷ []; is_correct = true }
      ∷ []);
  points = some 2;
  required = required;
  time_limit_seconds = none;
}

abbrev config : QuizConfig
config = record {
  questions =
      asked false
      ∷ asked true
      ∷ record { body = unsupported; points = none; required = true; time_limit_seconds = none }
      ∷ [];
  questions_to_send = some 2;
  shuffle_questions = true;
  shuffle_options = true;
  question_time_default_seconds = none;
}

abbrev same : List ℕ → List ℕ
same xs = xs

same-IsShuffle : IsShuffle same
same-IsShuffle = record { keeps = λ k xs. refl; keeps_length = λ xs. refl }

select_question_ids-required_example :
    ((k : ℕ)
      → ((if passes_at (λ q. q.required) config.questions k then 1 else 0)
          ≤ occurrences k (select_question_ids same same config))
        × (occurrences k (select_question_ids same same config)
            ≤ (if passes_at (λ _. true) config.questions k then 1 else 0)))
    × (length (select_question_ids same same config)
        ≡ length (required_ids config)
          + min
              (or_default config.questions_to_send (length config.questions)
                - length (required_ids config))
              (length (optional_ids config)))
select_question_ids-required_example =
    select_question_ids-required same same config same-IsShuffle same-IsShuffle

abbrev digit : Codes → Option ℤ
digit [] = none
digit (c ∷ t) = some (pos (c - 48))

abbrev plain : Texts
plain = record { int = digit; strip = λ t. t; lower = λ t. t; str_of_list = λ ts. [] }

abbrev question : QuestionBody → Question
question body = record {
  id = 4;
  points = 2;
  is_required = true;
  time_limit_seconds = none;
  body = body;
}

abbrev options : List Codes
options = (65 ∷ []) ∷ (66 ∷ []) ∷ (67 ∷ []) ∷ []

abbrev both : QuestionBody
both = multiple_choice options (2 ∷ 0 ∷ [])

abbrev both_shuffled : QuestionBody
both_shuffled = multiple_choice ((67 ∷ []) ∷ (65 ∷ []) ∷ (66 ∷ []) ∷ []) (0 ∷ 1 ∷ [])

abbrev order : List ℕ
order = 2 ∷ 0 ∷ 1 ∷ []

-- The second position shown, then the first.
abbrev answer : RawAnswer
answer = texts ((49 ∷ []) ∷ (48 ∷ []) ∷ [])

abbrev meant : RawAnswer
meant = texts ((48 ∷ []) ∷ (50 ∷ []) ∷ [])

shuffles_both :
    (distinct order ≡ true)
    × (fits order both ≡ true)
    × (shuffle_body order both ≡ some both_shuffled)
    × (carried order (1 ∷ 0 ∷ []) ≡ some (0 ∷ 2 ∷ []))
    × Picks plain both_shuffled answer (1 ∷ 0 ∷ [])
    × Picks plain both meant (0 ∷ 2 ∷ [])
unfolding shuffle_body distinct get_elem? fits carried Picks ints
shuffles_both = (refl, refl, refl, refl, refl, refl)

single_shuffled :
    shuffle_body order (single_choice options 1)
    ≡ some (single_choice ((67 ∷ []) ∷ (65 ∷ []) ∷ (66 ∷ []) ∷ []) 2)
unfolding shuffle_body
single_shuffled = refl

answer_right : (grade_answer plain (question both_shuffled) answer).points_earned ≡ 2
unfolding grade_answer ints
answer_right = refl

grade_answer-shuffle_body_example :
    ((grade_answer plain (record (question both) { body = both_shuffled }) answer).is_correct
      ≡ (grade_answer plain (record (question both) { body = both }) meant).is_correct)
    × ((grade_answer plain (record (question both) { body = both_shuffled }) answer).points_earned
        ≡ (grade_answer plain (record (question both) { body = both }) meant).points_earned)
    × (map (λ j. get_elem? (options_of both_shuffled) j) (1 ∷ 0 ∷ [])
        ≡ map (λ o. get_elem? (options_of both) o) (0 ∷ 2 ∷ []))
grade_answer-shuffle_body_example =
    grade_answer-shuffle_body plain (question both) both both_shuffled order (1 ∷ 0 ∷ [])
      (0 ∷ 2 ∷ []) answer meant shuffles_both.0 shuffles_both.1 shuffles_both.2 shuffles_both.3
      shuffles_both.4 shuffles_both.5

abbrev shuffles : Shuffles
shuffles = record { shuffle = same; reshuffle = same; options = λ i. 0 ∷ 1 ∷ []; slice = same }

abbrev draw : SquadDraw
draw = record {
  question_ids = 1 ∷ 0 ∷ [];
  slices = (1 ∷ []) ∷ (0 ∷ []) ∷ [];
  member_order = 5 ∷ 9 ∷ [];
}

abbrev mine : Question
mine = record {
  id = 0;
  points = 2;
  is_required = false;
  time_limit_seconds = none;
  body = single_choice ((65 ∷ []) ∷ (66 ∷ []) ∷ []) 1;
}

abbrev place : SquadSnapshot
place = record { member_index = 1; member_count = 2; total_questions = 2 }

draws : draw_for_member shuffles config (9 ∷ 5 ∷ []) 9 false none ≡ drawn draw (mine ∷ []) place
unfolding draw_for_member select_question_ids snapshot_questions split_draw deal append_at
    empty_slices required_first
draws = refl

draw_for_member-IsPartition_example :
    IsPartition draw
    × (stored_draw shuffles config (9 ∷ 5 ∷ []) none ≡ some draw)
    × (get_elem? draw.member_order place.member_index ≡ some 9)
    × ((slice : List ℕ) × (get_elem? draw.slices place.member_index ≡ some slice)
        × ((k : ℕ) → occurrences k (ids_of (mine ∷ [])) ≡ occurrences k slice))
draw_for_member-IsPartition_example =
    draw_for_member-IsPartition shuffles config (9 ∷ 5 ∷ []) 9 none draw (mine ∷ []) place
      same-IsShuffle (λ d e. absurd (ground arith)) draws

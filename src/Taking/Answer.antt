-- ===== src/Taking/Answer.antt =====
-- api/routes/student_quiz.py `_grade_answer`: what an answer of the form earns.
use submissions_checker.Prelude.{
  ℕ, Bool, true, false, not, ◌==◌, Option, none, some, List, [], ◌∷◌, map, filter, Codes, codes_eq,
  if◌then◌else◌, ℤ, pos, ℤ_eq, ℤs_eq, sorted_ℤ,
}
use submissions_checker.Taking.{
  Question, single_choice, multiple_choice, ordering, true_false, other,
}

-- What the grader uses of Python's texts: `int(t)`, where `none` is the ValueError; `t.strip()`;
-- `t.lower()`; and `str` of a list of texts.
pub record Texts : Type 0 where
  pub int : Codes → Option ℤ
  pub strip : Codes → Codes
  pub lower : Codes → Codes
  pub str_of_list : List Codes → Codes

-- `form.get(...)` gives a text and `form.getlist(...)` a list of texts.
pub data RawAnswer : Type 0 where
  text : Codes → RawAnswer
  texts : List Codes → RawAnswer

-- The JSON that is stored with the answer.
pub data AnswerJson : Type 0 where
  selected : Option ℤ → AnswerJson
  selected_values : List ℤ → AnswerJson
  order : List ℤ → AnswerJson
  value : Bool → AnswerJson
  raw : Codes → AnswerJson

pub record Graded : Type 0 where
  pub answer : AnswerJson
  pub is_correct : Bool
  pub points_earned : ℕ

-- `t.split(",")`; 44 is the comma.
unfoldable pub split_comma : Codes → List Codes
split_comma [] = [] ∷ []
split_comma (c ∷ t) =
    let rest = split_comma t in
    if c == 44 then [] ∷ rest else elim rest [ [] ↦ (c ∷ []) ∷ [] | w ∷ ws ↦ (c ∷ w) ∷ ws ]

abbrev pub true_text : Codes
true_text = 116 ∷ 114 ∷ 117 ∷ 101 ∷ []

unfoldable pub is_empty_text : Codes → Bool
is_empty_text [] = true
is_empty_text (c ∷ t) = false

-- `return answer, is_correct, q_points if is_correct else 0`
unfoldable pub graded : AnswerJson → Bool → ℕ → Graded
graded answer is_correct points = record {
  answer = answer;
  is_correct = is_correct;
  points_earned = if is_correct then points else 0;
}

module _ (t : Texts) where
  -- `int` of each text; `none` is the ValueError of one of them.
  unfoldable pub ints : List Codes → Option (List ℤ)
  ints [] = some []
  ints (x ∷ xs) = elim (t.int x) [
    | none ↦ none
    | some n ↦ elim (ints xs) [ none ↦ none | some ns ↦ some (n ∷ ns) ]
  ]

  unfoldable pub or_empty : Option (List ℤ) → List ℤ
  or_empty none = []
  or_empty (some ns) = ns

  -- `values` of a multiple choice.
  unfoldable pub values_of : RawAnswer → List Codes
  unfolding is_empty_text
  values_of (texts vs) = vs
  values_of (text v) = if is_empty_text v then [] else v ∷ []

  -- `int(raw_answer)`; a list is a TypeError.
  unfoldable pub selected_of : RawAnswer → Option ℤ
  selected_of (text v) = t.int v
  selected_of (texts vs) = none

  -- `str(raw_answer or "")`; an empty list is "" too.
  unfoldable pub raw_str : RawAnswer → Codes
  raw_str (text v) = v
  raw_str (texts []) = []
  raw_str (texts (v ∷ vs)) = t.str_of_list (v ∷ vs)

  -- `str(raw_answer)`
  unfoldable pub str : RawAnswer → Codes
  str (text v) = v
  str (texts vs) = t.str_of_list vs

  unfoldable pub order_of : RawAnswer → List ℤ
  unfolding or_empty ints raw_str split_comma is_empty_text
  order_of answer = or_empty (
      ints (
        map t.strip (filter (λ x. not (is_empty_text (t.strip x))) (split_comma (raw_str answer)))))

  unfoldable pub grade_single : Question → ℕ → RawAnswer → Graded
  unfolding graded selected_of
  grade_single q correct answer = elim (selected_of answer) [
    | none ↦ graded (selected none) false q.points
    | some n ↦ graded (selected (some n)) (ℤ_eq n (pos correct)) q.points
  ]

  unfoldable pub grade_answer : Question → RawAnswer → Graded
  unfolding graded ints or_empty values_of order_of str grade_single
  grade_answer q answer = elim q.body [
    | single_choice options correct ↦ grade_single q correct answer
    | multiple_choice options correct ↦
        let chosen = sorted_ℤ (or_empty (ints (values_of answer))) in
        graded (selected_values chosen) (ℤs_eq chosen (sorted_ℤ (map pos correct))) q.points
    | ordering items correct_order ↦
        let chosen = order_of answer in
        graded (order chosen) (ℤs_eq chosen (map pos correct_order)) q.points
    | true_false correct ↦
        let chosen = codes_eq (t.lower (str answer)) true_text in
        graded (value chosen) (if chosen then correct else not correct) q.points
    | other ↦ graded (raw (str answer)) false q.points
  ]

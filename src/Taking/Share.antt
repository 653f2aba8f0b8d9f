-- ===== src/Taking/Share.antt =====
-- api/routes/student_quiz.py `_draw_for_member`: the part of a squad's one draw that a member answers.
pub mod Slices
pub mod Dealt
use submissions_checker.Prelude.{
  ℕ, zero, suc, ◌+◌, Bool, true, false, ◌&&◌, Option, none, some, List, [], ◌∷◌, map, length,
  contains, sorted, ◌==◌, if◌then◌else◌,
}
use submissions_checker.Quiz.Split.{DrawnQuestion, split_draw}
use submissions_checker.Taking.{Question}
use submissions_checker.Taking.Draw.{
  ConfigQuestion, QuizConfig, get_elem?, index_of, select_question_ids, snapshot_questions,
}

-- `source_metadata["squad_quiz_draw"]`
pub record SquadDraw : Type 0 where
  pub question_ids : List ℕ
  pub slices : List (List ℕ)
  pub member_order : List ℕ

-- `squad_snapshot`
pub record SquadSnapshot : Type 0 where
  pub member_index : ℕ
  pub member_count : ℕ
  pub total_questions : ℕ

-- What a call returns, with the draw that the submission then has; the 409; or an error of Python,
-- where a question or a slice is not there. An error rolls the draw back.
pub data DrawOutcome : Type 0 where
  drawn : SquadDraw → List Question → SquadSnapshot → DrawOutcome
  squad_changed : DrawOutcome
  failed : DrawOutcome

-- The calls of `random.shuffle`: two in a selection, one for the options of each question, and one for
-- a member's slice.
pub record Shuffles : Type 0 where
  pub shuffle : List ℕ → List ℕ
  pub reshuffle : List ℕ → List ℕ
  pub options : ℕ → List ℕ
  pub slice : List ℕ → List ℕ

unfoldable pub to_drawn : Question → DrawnQuestion
to_drawn q = record { id = q.id; is_required = q.is_required }

-- `len(set(ids))`
unfoldable pub distinct_length : List ℕ → ℕ
distinct_length [] = 0
distinct_length (i ∷ ids) =
    let rest = distinct_length ids in if contains i ids then rest else suc rest

-- Only the required questions of the member's own slice stay required, from position `i`.
unfoldable pub scope_required : List ℕ → ℕ → List ConfigQuestion → List ConfigQuestion
scope_required mine i [] = []
scope_required mine i (q ∷ qs) =
    record q { required = q.required && contains i mine } ∷ scope_required mine (i + 1) qs

unfoldable pub retry_config : QuizConfig → List ℕ → QuizConfig
unfolding distinct_length scope_required
retry_config cfg mine = record cfg {
  questions_to_send = some (distinct_length mine);
  questions = scope_required mine 0 cfg.questions;
}

module _ (sh : Shuffles) where
  -- The draw that the first member to open the quiz writes.
  unfoldable pub new_draw : QuizConfig → List ℕ → Option SquadDraw
  unfolding to_drawn
  new_draw cfg members =
      let ids = select_question_ids sh.shuffle sh.reshuffle cfg in
      elim (snapshot_questions cfg sh.options ids) [
        | none ↦ none
        | some questions ↦ elim (split_draw (map to_drawn questions) (length members)) [
          | none ↦ none
          | some slices ↦
              some (record { question_ids = ids; slices = slices; member_order = sorted members })
        ]
      ]

  unfoldable pub stored_draw : QuizConfig → List ℕ → Option SquadDraw → Option SquadDraw
  unfolding new_draw
  stored_draw cfg members none = new_draw cfg members
  stored_draw cfg members (some draw) = some draw

  unfoldable pub member_ids : QuizConfig → List ℕ → Bool → List ℕ
  unfolding retry_config
  member_ids cfg slice retry =
      if retry
      then select_question_ids sh.shuffle sh.reshuffle (retry_config cfg slice)
      else if cfg.shuffle_questions
      then sh.slice slice
      else slice

  unfoldable pub draw_slice : QuizConfig → Bool → SquadDraw → ℕ → List ℕ → DrawOutcome
  unfolding member_ids retry_config
  draw_slice cfg retry draw idx slice =
      elim (snapshot_questions (if retry then retry_config cfg slice else cfg) sh.options
        (member_ids cfg slice retry)) [
          | none ↦ failed
          | some questions ↦ drawn draw questions (record {
            member_index = idx;
            member_count = length draw.member_order;
            total_questions = length draw.question_ids;
          })
        ]

  unfoldable pub draw_for_member : QuizConfig → List ℕ → ℕ → Bool → Option SquadDraw → DrawOutcome
  unfolding stored_draw draw_slice
  draw_for_member cfg members student_id retry stored = elim (stored_draw cfg members stored) [
    | none ↦ failed
    | some draw ↦ elim (index_of student_id draw.member_order) [
      | none ↦ squad_changed
      | some idx ↦ elim (get_elem? draw.slices idx) [
        | none ↦ failed
        | some slice ↦ draw_slice cfg retry draw idx slice
      ]
    ]
  ]

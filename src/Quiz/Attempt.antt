-- ===== src/Quiz/Attempt.antt =====
-- db/models/quiz_template.py: an attempt at a quiz with the questions it froze, and its answers.
-- Ids and points are naturals: the database refuses negative points (ck_quiz_answers_points_earned,
-- ck_quiz_attempts_score).
use submissions_checker.Prelude.{ℕ, Bool, true, false, Option, List}

pub data QuizAttemptStatus : Type 0 where
  in_progress completed timed_out violation_fail : QuizAttemptStatus

-- The tuple `_TERMINAL` of services/quiz_grants.py and services/squads.py.
unfoldable pub is_terminal : QuizAttemptStatus → Bool
is_terminal in_progress = false
is_terminal _ = true

-- One entry of `questions_snapshot`; `none` is a key that the entry does not have.
pub record QuestionSnapshot : Type 0 where
  pub id : Option ℕ
  pub points : Option ℕ
  pub is_required : Bool

-- A row of quiz_answers. The text of the answer is left out: no modelled code reads it.
pub record QuizAnswer : Type 0 where
  pub attempt_id : ℕ
  pub question_id : ℕ
  pub is_correct : Option Bool
  pub points_earned : Option ℕ
  pub timed_out : Bool

-- The parts of `config_snapshot` that decide a result: `pass_threshold_pct`, over the floats of the
-- model, and whether `review_mode` is "quiz_then_teacher".
pub record ConfigSnapshot {ℓ} (F : Type ℓ) : Type ℓ where
  pub pass_threshold_pct : Option F
  pub quiz_then_teacher : Bool

-- `force_fail` is the flag "_force_fail" of `violations`.
pub record QuizAttempt {ℓ} (F : Type ℓ) : Type ℓ where
  pub id : ℕ
  pub submission_id : ℕ
  pub student_id : Option ℕ
  pub plugin_config_id : Option ℕ
  pub plugin_config_version : Option ℕ
  pub config_snapshot : ConfigSnapshot F
  pub questions_snapshot : List QuestionSnapshot
  pub answers : List QuizAnswer
  pub force_fail : Bool
  pub score : Option ℕ
  pub max_score : Option ℕ
  pub is_passed : Option Bool
  pub status : QuizAttemptStatus

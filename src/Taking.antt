-- ===== src/Taking.antt =====
-- api/routes/student_quiz.py: an attempt at a quiz while a student takes it. The row of quiz_attempts
-- is `TakenAttempt`, with the columns that the pages read and write; `row` is the part of it that
-- services/quiz_scoring.py reads. Times are microseconds on the clock of the server, as Python's
-- datetimes count them, so that a comparison of two durations is one of whole numbers.
pub mod Clock
pub mod Expiry
pub mod Answer
pub mod Draw
pub mod Share
pub mod Finish
pub mod Events
pub mod Start
pub mod Desk
pub mod Pages
mod Examples
use submissions_checker.Prelude.{
  ℕ, ◌+◌, ◌*◌, Bool, true, false, Option, none, some, List, [], ◌∷◌, map, length, Codes, is_some,
  if◌then◌else◌,
}
use submissions_checker.Quiz.Attempt.{QuestionSnapshot, QuizAnswer, QuizAttempt, QuizAttemptStatus}

abbrev pub second : ℕ
second = 1_000_000

-- `type` and `config` of a snapshot question, with its texts as code points: the options and the
-- correct index, the correct indices, the items and their correct order. `other` is a type that the
-- grader does not know.
pub data QuestionBody : Type 0 where
  single_choice : List Codes → ℕ → QuestionBody
  multiple_choice : List Codes → List ℕ → QuestionBody
  ordering : List Codes → List ℕ → QuestionBody
  true_false : Bool → QuestionBody
  other : QuestionBody

-- An entry of `questions_snapshot`, as `_snapshot_questions` writes it, without its text.
pub record Question : Type 0 where
  pub id : ℕ
  pub points : ℕ
  pub is_required : Bool
  pub time_limit_seconds : Option ℕ
  pub body : QuestionBody

-- `violations`: the counters of the event names, and the keys with an underscore, which no event name
-- can be (_EVENT_TYPE_RE).
pub record Violations : Type 0 where
  pub counts : List (Codes × ℕ)
  pub force_fail : Bool
  pub time_penalty_seconds : Option ℕ
  pub flagged_events : Option (List Codes)

-- `len(violations)`
unfoldable pub violations_length : Violations → ℕ
violations_length v =
    length v.counts
    + (if v.force_fail then 1 else 0)
    + (if is_some v.time_penalty_seconds then 1 else 0)
    + (if is_some v.flagged_events then 1 else 0)

pub data RuleAction : Type 0 where
  fail reduce_time warn flag : RuleAction

-- A rule of `anti_cheat` in the config snapshot, without the text of its message.
pub record Rule : Type 0 where
  pub event : Codes
  pub threshold : ℕ
  pub action : RuleAction
  pub penalty_seconds : ℕ

pub record TakenAttempt {ℓ} (F : Type ℓ) : Type ℓ where
  pub id : ℕ
  pub submission_id : ℕ
  pub student_id : Option ℕ
  pub plugin_config_id : Option ℕ
  pub plugin_config_version : Option ℕ
  -- The keys of `config_snapshot`; a time limit that is absent is 0, as `if not limit` reads both.
  pub pass_threshold_pct : Option F
  pub quiz_then_teacher : Bool
  pub max_quiz_attempts : Option ℕ
  pub time_limit_minutes : ℕ
  pub per_question_timing : Bool
  pub rules : List Rule
  pub questions_snapshot : List Question
  pub answers : List QuizAnswer
  pub violations : Violations
  pub current_index : ℕ
  pub started_at : ℕ
  pub question_started_at : Option ℕ
  pub paused_at : Option ℕ
  pub paused_seconds : ℕ
  pub submitted_at : Option ℕ
  pub score : Option ℕ
  pub max_score : Option ℕ
  pub is_passed : Option Bool
  pub status : QuizAttemptStatus

unfoldable pub entry : Question → QuestionSnapshot
entry q = record { id = some q.id; points = some q.points; is_required = q.is_required }

module _ {ℓ} {F : Type ℓ} where
  unfoldable pub row : TakenAttempt F → QuizAttempt F
  unfolding entry
  row s = record {
    id = s.id;
    submission_id = s.submission_id;
    student_id = s.student_id;
    plugin_config_id = s.plugin_config_id;
    plugin_config_version = s.plugin_config_version;
    config_snapshot = record {
      pass_threshold_pct = s.pass_threshold_pct;
      quiz_then_teacher = s.quiz_then_teacher;
    };
    questions_snapshot = map entry s.questions_snapshot;
    answers = s.answers;
    force_fail = s.violations.force_fail;
    score = s.score;
    max_score = s.max_score;
    is_passed = s.is_passed;
    status = s.status;
  }

-- ===== src/Taking/Finish.antt =====
-- api/routes/student_quiz.py `_count_used_attempts` and `_grade_and_finalize`: an attempt ends. The
-- rows are `RegradeTables`, whose list of attempts has the row of the attempt at hand; the row lock on
-- the submission makes its two reads of the status one.
pub mod Settled
pub mod Outcome
use submissions_checker.Prelude.{
  ℕ, suc, ◌+◌, ◌-◌, Bool, true, false, not, ◌&&◌, ◌||◌, Option, none, some, List, [], ◌∷◌, ◌++◌,
  count, leb, modify_first, ◌==◌, if◌then◌else◌, is_some, opt_eq,
}
use submissions_checker.Submission.{
  Submission, SubmissionStatus, Event, transition, quiz_sent, quiz_passed, quiz_passed_teacher,
  quiz_failed,
}
use submissions_checker.Quiz.Attempt.{QuizAttempt, QuizAttemptStatus, is_terminal, violation_fail}
use submissions_checker.Quiz.Scoring.{
  Floats, Scored, load_question_overrides, apply_question_overrides, score_attempt,
}
use submissions_checker.Quiz.Completion.{quiz_complete}
use submissions_checker.Quiz.Grants.{effective_max_attempts}
use submissions_checker.Quiz.Regrade.{RegradeTables, submission_of, to_teacher, write_submission}
use submissions_checker.Taking.{TakenAttempt, row}
use submissions_checker.Taking.Clock.{close_open_pause}

-- What the end of an attempt leaves behind besides the rows: the grade that `finalize_grade` computes,
-- the note to the teacher, the note to the squad, and the outbox row of the result.
pub data QuizEffect : Type 0 where
  finalize_grade : ℕ → QuizEffect
  enqueue_teacher_review : ℕ → QuizEffect
  notify_partners_passed : ℕ → Option ℕ → QuizEffect
  quiz_result : ℕ → Scored → Option ℕ → QuizEffect

unfoldable pub is_quiz_sent : SubmissionStatus → Bool
is_quiz_sent quiz_sent = true
is_quiz_sent _ = false

module _ {ℓ} {F : Type ℓ} where
  unfoldable pub counts_as_used : ℕ → ℕ → Option ℕ → QuizAttempt F → Bool
  counts_as_used submission_id exclude_id student_id a =
      a.submission_id == submission_id
      && is_terminal a.status
      && not (a.id == exclude_id)
      && (opt_eq a.student_id student_id || not (is_some a.student_id))

  unfoldable pub count_used_attempts : List (QuizAttempt F) → ℕ → ℕ → Option ℕ → ℕ
  unfolding counts_as_used
  count_used_attempts attempts submission_id exclude_id student_id =
      count (counts_as_used submission_id exclude_id student_id) attempts

  unfoldable pub write_attempt : TakenAttempt F → RegradeTables F → RegradeTables F
  unfolding row
  write_attempt s db = record db {
    attempts = modify_first (λ a. a.id == s.id) (λ _. row s) db.attempts;
  }

  -- The columns that the end of the attempt writes.
  unfoldable pub closed_row : ℕ → QuizAttemptStatus → Scored → TakenAttempt F → TakenAttempt F
  unfolding close_open_pause
  closed_row now status scored s =
      let graded : TakenAttempt F = record s {
        score = some scored.score;
        max_score = some scored.max_score;
        is_passed = some scored.is_passed;
        submitted_at = some now;
        status = if scored.force_failed then violation_fail else status;
      } in
      (close_open_pause now graded).0

-- The tables, what was left behind, and `attempts_left`.
pub record Finished {ℓ} (F : Type ℓ) : Type ℓ where
  pub tables : RegradeTables F
  pub effects : List QuizEffect
  pub attempts_left : Option ℕ

module _ {ℓ} {F : Type ℓ} where
  unfoldable pub moved_to :
      Event → Submission → RegradeTables F → List QuizEffect → Option ℕ → Option (Finished F)
  moved_to event sub db effects left = elim (transition sub event) [
    | none ↦ none
    | some moved ↦
        some
          (record { tables = write_submission moved db; effects = effects; attempts_left = left })
  ]

  unfoldable pub kept : RegradeTables F → List QuizEffect → Option ℕ → Option (Finished F)
  kept db effects left = some (record { tables = db; effects = effects; attempts_left = left })

  -- The branch of a pass.
  unfoldable pub after_pass : RegradeTables F → Submission → TakenAttempt F → Option (Finished F)
  unfolding moved_to kept
  after_pass db sub s =
      if quiz_complete db.squad_tables db.attempts sub
      then if to_teacher db sub (row s)
        then moved_to quiz_passed_teacher sub db (enqueue_teacher_review sub.id ∷ []) none
        else moved_to quiz_passed sub db (finalize_grade sub.id ∷ []) none
      else if is_some sub.squad_id
      then kept db (notify_partners_passed sub.id s.student_id ∷ []) none
      else kept db [] none

  -- The branch of an attempt that is not a pass.
  unfoldable pub after_fail : RegradeTables F → Submission → TakenAttempt F → Option (Finished F)
  unfolding moved_to kept count_used_attempts
  after_fail db sub s = elim (effective_max_attempts s.max_quiz_attempts sub s.student_id) [
    | none ↦ kept db [] none
    | some max_attempts ↦
        let used = suc (count_used_attempts db.attempts s.submission_id s.id s.student_id) in
        if leb max_attempts used
        then moved_to quiz_failed sub db [] (some 0)
        else kept db [] (some (max_attempts - used))
  ]

  unfoldable pub after_attempt : RegradeTables F → Bool → TakenAttempt F → Option (Finished F)
  unfolding after_pass after_fail kept is_quiz_sent
  after_attempt db is_passed s = elim (submission_of db s.submission_id) [
    | none ↦ kept db [] none
    | some sub ↦
        if is_quiz_sent sub.status
        then if is_passed then after_pass db sub s else after_fail db sub s
        else kept db [] none
  ]

module _ (fl : Floats) where
  open fl use {F}

  unfoldable pub credited : RegradeTables F → TakenAttempt F → TakenAttempt F
  unfolding row
  credited db s =
      let overrides =
        load_question_overrides db.overrides s.plugin_config_id s.plugin_config_version in
      record s { answers = (apply_question_overrides (row s) overrides).0.answers }

  unfoldable pub close_attempt :
      ℕ → QuizAttemptStatus → RegradeTables F → TakenAttempt F → Option (TakenAttempt F × Scored)
  unfolding credited closed_row row
  close_attempt now status db s = elim (score_attempt fl (row (credited db s))) [
    | none ↦ none
    | some scored ↦ some (closed_row now status scored (credited db s), scored)
  ]

  -- `none` is an InvalidTransitionError or a KeyError of the snapshot.
  unfoldable pub grade_and_finalize :
      ℕ
      → QuizAttemptStatus
      → RegradeTables F
      → List QuizEffect
      → TakenAttempt F
      → Option (TakenAttempt F × RegradeTables F × List QuizEffect)
  unfolding close_attempt after_attempt write_attempt
  grade_and_finalize now status db effects s = elim (close_attempt now status db s) [
    | none ↦ none
    | some (ended, scored) ↦ elim (after_attempt (write_attempt ended db) scored.is_passed ended) [
      | none ↦ none
      | some fin ↦ some (
        ended,
        fin.tables,
        effects ++ fin.effects ++ quiz_result ended.id scored fin.attempts_left ∷ [],
      )
    ]
  ]

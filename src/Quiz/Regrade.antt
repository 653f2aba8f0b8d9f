-- ===== src/Quiz/Regrade.antt =====
-- services/quiz_regrade.py: the ruling on a reported question, and the attempts it scores again; with
-- the two questions of services/quiz_open.py about a scored submission.
pub mod Rescore
pub mod Ruling
use submissions_checker.Prelude.{
  ℕ, Bool, true, false, not, ◌&&◌, ◌||◌, Option, none, some, List, [], ◌∷◌, ◌++◌, map, filter, any,
  find, modify_first, reverse, Codes, ◌==◌, if◌then◌else◌, is_true, is_some, opt_eq, or_zero,
}
use submissions_checker.Submission.{
  Submission, SubmissionStatus, Event, transition, failed, quiz_sent, completed,
  awaiting_teacher_review, quiz_passed, quiz_passed_teacher, dispute_regrade_passed,
  dispute_regrade_passed_teacher,
}
use submissions_checker.Squads.State.{Tables}
use submissions_checker.Grading.TeacherScores.{AssignmentConfig, criteria, is_complete}
use submissions_checker.Quiz.Attempt.{QuizAttempt, QuizAttemptStatus, timed_out}
use submissions_checker.Quiz.Scoring.{
  Floats, Scored, QuizQuestionOverride, apply_question_overrides, score_attempt,
}
use submissions_checker.Quiz.Completion.{quiz_complete}

pub data QuizDisputeStatus : Type 0 where
  opened accepted rejected : QuizDisputeStatus

unfoldable pub is_open : QuizDisputeStatus → Bool
is_open opened = true
is_open _ = false

-- A row of quiz_question_disputes, without its texts and dates.
pub record QuizQuestionDispute : Type 0 where
  pub id : ℕ
  pub attempt_id : ℕ
  pub question_id : ℕ
  pub student_id : ℕ
  pub plugin_config_id : Option ℕ
  pub plugin_config_version : Option ℕ
  pub status : QuizDisputeStatus
  pub resolved_by_user_id : Option ℕ

pub record AttemptRescore : Type 0 where
  pub attempt_id : ℕ
  pub submission_id : ℕ
  pub student_id : ℕ
  pub score : ℕ
  pub max_score : ℕ
  pub was_passed : Bool
  pub is_passed : Bool

unfoldable pub flipped : AttemptRescore → Bool
flipped r = r.is_passed && not r.was_passed

-- What a call leaves behind besides the rows below: the grade that `finalize_grade` computes, the
-- outbox rows, and the notification of a student who has a login.
pub data Effect : Type 0 where
  finalize_grade : ℕ → Effect
  enqueue_teacher_review : ℕ → Effect
  push_in_app : ℕ → ℕ → Effect
  outbox_resolved : Option ℕ → ℕ → Option AttemptRescore → Effect

-- The assignment of a submission, as `_assignment_of` finds it: whether its config is in the scored
-- mode, the config, and the points that the teacher entered.
pub record AssignmentView : Type 0 where
  pub scored_mode : Bool
  pub config : AssignmentConfig
  pub teacher_scores : Option (List (Codes × ℕ))

pub record RegradeTables {ℓ} (F : Type ℓ) : Type ℓ where
  pub squad_tables : Tables
  pub owner_of : ℕ → Option ℕ
  pub assignment_of : ℕ → Option AssignmentView
  pub attempts : List (QuizAttempt F)
  pub submissions : List Submission
  pub overrides : List QuizQuestionOverride
  pub disputes : List QuizQuestionDispute
  pub effects : List Effect

-- `_REGRADABLE_STATUSES`
unfoldable pub is_regradable : QuizAttemptStatus → Bool
is_regradable QuizAttemptStatus.completed = true
is_regradable timed_out = true
is_regradable _ = false

-- What `_advance_submission` decides on a status.
pub data Advance : Type 0 where
  stay : Advance
  grade_again : Advance
  move : Event → Advance

unfoldable pub advance_step : SubmissionStatus → Bool → Bool → Advance
advance_step quiz_sent to_teacher complete =
    if complete then move (if to_teacher then quiz_passed_teacher else quiz_passed) else stay
advance_step failed to_teacher complete =
    if complete
    then move (if to_teacher then dispute_regrade_passed_teacher else dispute_regrade_passed)
    else stay
advance_step completed to_teacher complete = grade_again
advance_step _ to_teacher complete = stay

module _ {ℓ} {F : Type ℓ} where
  unfoldable pub submission_of : RegradeTables F → ℕ → Option Submission
  submission_of db i = find (λ s. s.id == i) db.submissions

  unfoldable pub is_scored_submission : RegradeTables F → Submission → Bool
  is_scored_submission db sub = elim (db.assignment_of sub.students_assignment_id) [
    | none ↦ false
    | some pair ↦ pair.scored_mode
  ]

  unfoldable pub scores_complete_for : RegradeTables F → Submission → Bool
  scores_complete_for db sub = elim (db.assignment_of sub.students_assignment_id) [
    | none ↦ false
    | some pair ↦
        is_complete (criteria pair.config) (elim pair.teacher_scores [ none ↦ [] | some d ↦ d ])
  ]

  unfoldable pub to_teacher : RegradeTables F → Submission → QuizAttempt F → Bool
  to_teacher db sub attempt =
      if is_scored_submission db sub
      then not (scores_complete_for db sub)
      else attempt.config_snapshot.quiz_then_teacher

  unfoldable pub write_submission : Submission → RegradeTables F → RegradeTables F
  write_submission sub db = record db {
    submissions = modify_first (λ s. s.id == sub.id) (λ _. sub) db.submissions;
  }

  unfoldable pub add_effect : Effect → RegradeTables F → RegradeTables F
  add_effect e db = record db { effects = db.effects ++ e ∷ [] }

  -- `none` is an InvalidTransitionError.
  unfoldable pub advance_submission : RegradeTables F → QuizAttempt F → Option (RegradeTables F)
  advance_submission db attempt = elim (submission_of db attempt.submission_id) [
    | none ↦ some db
    | some sub ↦
        let teacher = to_teacher db sub attempt in
        elim (advance_step sub.status teacher (quiz_complete db.squad_tables db.attempts sub)) [
          | stay ↦ some db
          | grade_again ↦ some (add_effect (finalize_grade sub.id) db)
          | move e ↦ elim (transition sub e) [
            | none ↦ none
            | some moved ↦ some (
                add_effect
                  (if teacher then enqueue_teacher_review sub.id else finalize_grade sub.id)
                  (write_submission moved db))
          ]
        ]
  ]

  -- The WHERE of `regrade_question`.
  unfoldable pub is_candidate : ℕ → ℕ → QuizAttempt F → Bool
  is_candidate config version a =
      opt_eq a.plugin_config_id (some config)
      && opt_eq a.plugin_config_version (some version)
      && is_regradable a.status
      && not (is_true a.is_passed)

  unfoldable pub saw_question : ℕ → QuizAttempt F → Bool
  saw_question question a = any (λ q. opt_eq q.id (some question)) a.questions_snapshot

module _ (fl : Floats) where
  open fl use {F}

  -- One round of the loop; `none` is the KeyError of `score_attempt`.
  unfoldable pub rescore :
      RegradeTables F → ℕ → QuizAttempt F → Option (QuizAttempt F × AttemptRescore)
  rescore db question attempt =
      let credited = (apply_question_overrides attempt (question ∷ [])).0 in
      let sub = submission_of db attempt.submission_id in
      let owner : Option ℕ = elim sub [
        | none ↦ none
        | some s ↦ db.owner_of s.students_assignment_id
      ] in
      elim (score_attempt fl credited) [
        | none ↦ none
        | some s ↦ some (
          record credited {
            score = some s.score;
            max_score = some s.max_score;
            is_passed = some s.is_passed;
          },
          record {
            attempt_id = attempt.id;
            submission_id = attempt.submission_id;
            student_id = or_zero owner;
            score = s.score;
            max_score = s.max_score;
            was_passed = is_true attempt.is_passed;
            is_passed = s.is_passed;
          },
        )
      ]

  -- The loop over all rows: those that the query leaves out are kept.
  unfoldable pub regrade_loop :
      RegradeTables F
      → ℕ
      → ℕ
      → ℕ
      → List (QuizAttempt F)
      → Option (List (QuizAttempt F) × List AttemptRescore)
  regrade_loop db config version question [] = some ([], [])
  regrade_loop db config version question (a ∷ attempts) =
      let rest = regrade_loop db config version question attempts in
      elim rest [
        | none ↦ none
        | some (rows, entries) ↦
            if is_candidate config version a && saw_question question a
            then elim (rescore db question a) [
              | none ↦ none
              | some (row, entry) ↦ some (row ∷ rows, entry ∷ entries)
            ]
            else some (a ∷ rows, entries)
      ]

  unfoldable pub regrade_question :
      RegradeTables F → ℕ → ℕ → ℕ → Option (RegradeTables F × List AttemptRescore)
  regrade_question db config version question =
      elim (regrade_loop db config version question db.attempts) [
        | none ↦ none
        | some (rows, entries) ↦ some (record db { attempts = rows }, entries)
      ]

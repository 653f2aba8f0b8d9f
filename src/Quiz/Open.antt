-- ===== src/Quiz/Open.antt =====
-- services/quiz_open.py `open_quiz_submission`, with `scope_sa_ids` and `latest_submission` of
-- services/squads.py: the submission that a quiz without an upload hangs off.
pub mod Shared
mod Examples
use submissions_checker.Prelude.{
  ℕ, ◌+◌, Bool, true, false, not, ◌||◌, Option, none, some, List, [], ◌∷◌, ◌++◌, find, contains,
  is_some, if◌then◌else◌,
}
use submissions_checker.Submission.{
  Submission, SubmissionStatus, validation_failed, test_failed, pending, quiz_only, quiz_opened,
  transition,
}
use submissions_checker.Squads.State.{
  Squad, Tables, active_squad, squad_of, has_pending_invites, squad_has_pending_invites,
}
use submissions_checker.Squads.Formation.{lock_on_submit}
use submissions_checker.Grading.Rows.{StudentAssignment, AssignmentRows, is_row, member_sa_ids}

-- A row of subjects_assignments, and whether its review mode is quiz_and_teacher_scores.
pub record SubjectsAssignment : Type 0 where
  pub id : ℕ
  pub subject_id : ℕ
  pub is_scored : Bool

-- `submissions` are in the order of `created_at`; `latest_config` is the newest configuration of a
-- subject.
pub record OpenTables : Type 0 where
  pub squad_tables : Tables
  pub assignments : AssignmentRows
  pub submissions : List Submission
  pub next_submission : ℕ
  pub assignment_of : ℕ → Option SubjectsAssignment
  pub latest_config : ℕ → Option ℕ

pub data OpenRefusal : Type 0 where
  not_available invitation_pending no_config : OpenRefusal

-- A submission that was there, one that was added, a QuizOpenError, or an error of the state machine.
pub data OpenOutcome : Type 0 where
  reused : Submission → OpenTables → OpenOutcome
  created : Submission → OpenTables → OpenOutcome
  refused : OpenRefusal → OpenOutcome
  raised : OpenOutcome

-- `REOPENABLE`
unfoldable pub is_reopenable : SubmissionStatus → Bool
is_reopenable validation_failed = true
is_reopenable test_failed = true
is_reopenable _ = false

unfoldable pub scope_sa_ids : Tables → ℕ → ℕ → ℕ → AssignmentRows → List ℕ × AssignmentRows
unfolding active_squad is_row member_sa_ids
scope_sa_ids db student_id subject_id asg_id assignments =
    elim (active_squad db subject_id student_id) [
      | none ↦ elim (find (is_row student_id asg_id) assignments.rows) [
        | none ↦ ([], assignments)
        | some own ↦ (own.id ∷ [], assignments)
      ]
      | some squad ↦ member_sa_ids squad.members asg_id assignments
    ]

-- The last submission of these rows of students_assignments.
unfoldable pub latest_in : List ℕ → List Submission → Option Submission
latest_in scope [] = none
latest_in scope (sub ∷ rest) = elim (latest_in scope rest) [
  | some later ↦ some later
  | none ↦ if contains sub.students_assignment_id scope then some sub else none
]

unfoldable pub latest_submission_for : OpenTables → ℕ → ℕ → ℕ → Option Submission × OpenTables
unfolding scope_sa_ids latest_in
latest_submission_for db student_id subject_id asg_id =
    let (scope, assignments) =
      scope_sa_ids db.squad_tables student_id subject_id asg_id db.assignments in
    (latest_in scope db.submissions, record db { assignments = assignments })

unfoldable pub latest_submission : OpenTables → StudentAssignment → Option Submission × OpenTables
unfolding latest_submission_for
latest_submission db sa = elim (db.assignment_of sa.subjects_assignment_id) [
  | none ↦ (none, db)
  | some asg ↦ latest_submission_for db sa.student_id asg.subject_id asg.id
]

-- A submission that the student goes on with; one that never reached the quiz is passed over.
unfoldable pub open_one : Option Submission → Option Submission
unfolding is_reopenable
open_one none = none
open_one (some sub) = if is_reopenable sub.status then none else some sub

-- The squad that the submission is for.
unfoldable pub squad_in : Tables → ℕ → ℕ → Option Squad
unfolding squad_of
squad_in db subject_id student_id =
    if is_some (db.squad_max_size subject_id) then squad_of db subject_id student_id else none

unfoldable pub squad_is_unsettled : Tables → ℕ → ℕ → Bool
unfolding has_pending_invites squad_has_pending_invites
squad_is_unsettled db subject_id student_id =
    if is_some (db.squad_max_size subject_id)
    then has_pending_invites db subject_id student_id
      || squad_has_pending_invites db subject_id student_id
    else false

unfoldable pub lock_opt : Option Squad → Tables → Tables
unfolding lock_on_submit
lock_opt none db = db
lock_opt (some squad) db = lock_on_submit squad.id db

unfoldable pub add_submission : StudentAssignment → ℕ → Option Squad → OpenTables → OpenOutcome
unfolding lock_opt transition
add_submission sa config_id squad db =
    let squad_id : Option ℕ = elim squad [ none ↦ none | some s ↦ some s.id ] in
    let sub : Submission = record {
      id = db.next_submission;
      students_assignment_id = sa.id;
      source_type = quiz_only;
      quiz_extra_attempts = none;
      status = pending;
      plugin_config_id = some config_id;
      squad_id = squad_id;
    } in
    elim (transition sub quiz_opened) [
      | none ↦ raised
      | some opened ↦ created opened (record db {
        squad_tables = lock_opt squad db.squad_tables;
        submissions = db.submissions ++ opened ∷ [];
        next_submission = db.next_submission + 1;
      })
    ]

unfoldable pub open_quiz_submission : OpenTables → StudentAssignment → ℕ → OpenOutcome
unfolding latest_submission open_one squad_in squad_is_unsettled add_submission
open_quiz_submission db0 sa student_id =
    let (latest, db) = latest_submission db0 sa in
    elim (open_one latest) [
      | some sub ↦ reused sub db
      | none ↦ elim (db.assignment_of sa.subjects_assignment_id) [
        | none ↦ refused not_available
        | some asg ↦
            if not asg.is_scored
            then refused not_available
            else if squad_is_unsettled db.squad_tables asg.subject_id student_id
            then refused invitation_pending
            else elim (db.latest_config asg.subject_id) [
              | none ↦ refused no_config
              | some config_id ↦
                  add_submission sa config_id (squad_in db.squad_tables asg.subject_id student_id)
                    db
            ]
      ]
    ]

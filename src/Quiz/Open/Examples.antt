-- ===== src/Quiz/Open/Examples.antt =====
-- The opening of a quiz by two members of a squad that has not locked yet.
use submissions_checker.Prelude.{
  ℕ, ◌≡◌, refl, true, false, none, some, [], ◌∷◌, ◌==◌, if◌then◌else◌, find,
}
use submissions_checker.Submission.{
  Submission, quiz_sent, quiz_only, zip_upload, validation_failed, transition,
}
use submissions_checker.Squads.State.{
  Squad, Tables, EntityType, active_squad, squad_of, squad_by_id, has_pending_invites,
  squad_has_pending_invites,
}
use submissions_checker.Squads.Formation.{lock_on_submit}
use submissions_checker.Grading.Rows.{StudentAssignment, is_row}
use submissions_checker.Quiz.Open.{
  SubjectsAssignment, OpenTables, reused, created, open_quiz_submission, is_reopenable,
  scope_sa_ids, latest_in, latest_submission_for, latest_submission, open_one, squad_in,
  squad_is_unsettled, lock_opt, add_submission,
}
use submissions_checker.Quiz.Open.Shared.{mates, open_quiz_submission-shared}

abbrev team : Squad
team = record {
  id = 3;
  subject_id = 1;
  created_by_student_id = some 5;
  created_by_user_id = none;
  locked = false;
  members = 5 ∷ 6 ∷ [];
}

abbrev tables : Tables
tables = record {
  squad_max_size = λ s. some 3;
  enrolled = λ s i. true;
  student_type = λ i. some EntityType.real;
  has_submissions = λ s i. false;
  has_user = λ i. true;
  squads = team ∷ [];
  invites = [];
  next_squad = 4;
  next_invite = 1;
  notices = [];
  audits = [];
}

abbrev row_of : ℕ → ℕ → StudentAssignment
row_of id student_id = record {
  id = id;
  student_id = student_id;
  subjects_assignment_id = 9;
  grade = none;
  teacher_scores = none;
}

abbrev asg : SubjectsAssignment
asg = record { id = 9; subject_id = 1; is_scored = true }

-- An old upload that failed its checks does not stand in the way.
abbrev upload : Submission
upload = record {
  id = 1;
  students_assignment_id = 20;
  source_type = zip_upload;
  quiz_extra_attempts = none;
  status = validation_failed;
  plugin_config_id = some 1;
  squad_id = none;
}

abbrev db : OpenTables
db = record {
  squad_tables = tables;
  assignments = record { rows = row_of 20 5 ∷ row_of 21 6 ∷ []; next_id = 22 };
  submissions = upload ∷ [];
  next_submission = 2;
  assignment_of = λ i. if i == 9 then some asg else none;
  latest_config = λ s. some 4;
}

abbrev opened : Submission
opened = record {
  id = 2;
  students_assignment_id = 20;
  source_type = quiz_only;
  quiz_extra_attempts = none;
  status = quiz_sent;
  plugin_config_id = some 4;
  squad_id = some 3;
}

abbrev after : OpenTables
after = record db {
  squad_tables = record tables { squads = record team { locked = true } ∷ [] };
  submissions = upload ∷ opened ∷ [];
  next_submission = 3;
}

opens : open_quiz_submission db (row_of 20 5) 5 ≡ created opened after
unfolding open_quiz_submission latest_submission latest_submission_for open_one squad_in
    squad_is_unsettled add_submission scope_sa_ids active_squad latest_in is_reopenable lock_opt
    lock_on_submit transition squad_of has_pending_invites squad_has_pending_invites
opens = refl

seats :
    (squad_of tables 1 5 ≡ some team)
    × (squad_of tables 1 6 ≡ some team)
    × (squad_by_id tables 3 ≡ some team)
    × (find (is_row 5 9) db.assignments.rows ≡ some (row_of 20 5))
    × (find (is_row 6 9) db.assignments.rows ≡ some (row_of 21 6))
unfolding squad_of squad_by_id is_row
seats = (refl, refl, refl, refl, refl)

open_quiz_submission-shared_example :
    (opened.source_type ≡ quiz_only)
    × (opened.status ≡ quiz_sent)
    × (db'' : OpenTables) × (open_quiz_submission after (row_of 21 6) 6 ≡ reused opened db'')
    × (db''.submissions ≡ after.submissions)
open_quiz_submission-shared_example =
    open_quiz_submission-shared db after (row_of 20 5) (row_of 21 6) 5 6 asg opened refl seats.3
      seats.4 (mates team refl seats.0 seats.1 seats.2) opens

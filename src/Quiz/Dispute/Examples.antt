-- ===== src/Quiz/Dispute/Examples.antt =====
-- A reported question of three points, never answered: the ruling flips the attempt and completes the
-- submission.
use submissions_checker.Prelude.{
  ℕ, ◌≡◌, refl, Bool, true, false, none, some, List, [], ◌∷◌, any, contains,
}
use submissions_checker.Submission.{Submission, zip_upload, failed, transition, SubmissionStatus}
use submissions_checker.Squads.State.{Tables, EntityType}
use submissions_checker.Quiz.Attempt.{QuizAnswer, QuizAttempt, timed_out}
use submissions_checker.Quiz.Fractions.{Fraction, fractions}
use submissions_checker.Quiz.Scoring.{
  load_question_overrides, score_attempt, answer_points, snapshot_points, apply_question_overrides,
}
use submissions_checker.Quiz.Completion.{quiz_complete, squad_for_submission, passed_on}
use submissions_checker.Quiz.Regrade.{
  accepted, opened, is_open, QuizQuestionDispute, AttemptRescore, flipped, finalize_grade,
  push_in_app, outbox_resolved, RegradeTables, is_regradable, advance_step, submission_of,
  is_scored_submission, to_teacher, write_submission, add_effect, advance_submission, is_candidate,
  saw_question, rescore, regrade_loop, regrade_question,
}
use submissions_checker.Quiz.Regrade.Rescore.{Pointwise, Regraded, regrade_question-Regraded}
use submissions_checker.Quiz.Regrade.Ruling.{Advanced, advance_submission-Advanced}
use submissions_checker.Quiz.Dispute.{
  DisputeOutcome, ruled, same_key, insert_override, is_sibling, rule_siblings, sibling_ids,
  advance_flipped, push, notify_classmates, notify_students, write_dispute, write_siblings,
  rule_accepted, resolve_dispute,
}
use submissions_checker.Quiz.Dispute.Closing.{open_report, resolve_dispute-closes}

abbrev tables : Tables
tables = record {
  squad_max_size = λ s. none;
  enrolled = λ s i. true;
  student_type = λ i. some EntityType.real;
  has_submissions = λ s i. true;
  has_user = λ i. true;
  squads = [];
  invites = [];
  next_squad = 1;
  next_invite = 1;
  notices = [];
  audits = [];
}

abbrev sub : Submission
sub = record {
  id = 7;
  students_assignment_id = 20;
  source_type = zip_upload;
  quiz_extra_attempts = none;
  status = failed;
  plugin_config_id = some 2;
  squad_id = none;
}

abbrev attempt : List QuizAnswer → ℕ → Bool → QuizAttempt Fraction
attempt rows score passed = record {
  id = 1;
  submission_id = 7;
  student_id = some 5;
  plugin_config_id = some 2;
  plugin_config_version = some 4;
  config_snapshot = record { pass_threshold_pct = none; quiz_then_teacher = false };
  questions_snapshot = record { id = some 12; points = some 3; is_required = false } ∷ [];
  answers = rows;
  force_fail = false;
  score = some score;
  max_score = some 3;
  is_passed = some passed;
  status = timed_out;
}

abbrev report : ℕ → QuizQuestionDispute
report i = record {
  id = i;
  attempt_id = 1;
  question_id = 12;
  student_id = 5;
  plugin_config_id = some 2;
  plugin_config_version = some 4;
  status = opened;
  resolved_by_user_id = none;
}

abbrev before : RegradeTables Fraction
before = record {
  squad_tables = tables;
  owner_of = λ sa. some 5;
  assignment_of = λ sa. none;
  attempts = attempt [] 0 false ∷ [];
  submissions = sub ∷ [];
  overrides = [];
  disputes = report 30 ∷ report 31 ∷ [];
  effects = [];
}

abbrev credited : QuizAttempt Fraction
credited =
    attempt
      (record {
        attempt_id = 1;
        question_id = 12;
        is_correct = some true;
        points_earned = some 3;
        timed_out = false;
      }
        ∷ [])
      3 true

abbrev entry : AttemptRescore
entry = record {
  attempt_id = 1;
  submission_id = 7;
  student_id = 5;
  score = 3;
  max_score = 3;
  was_passed = false;
  is_passed = true;
}

abbrev regraded : RegradeTables Fraction
regraded = record before { attempts = credited ∷ [] }

regrades : regrade_question fractions before 2 4 12 ≡ some (regraded, entry ∷ [])
unfolding regrade_question regrade_loop rescore is_candidate is_regradable saw_question
    submission_of score_attempt answer_points snapshot_points apply_question_overrides
regrades = refl

regrade_question-Regraded_example :
    Pointwise (Regraded fractions 2 4 12) before.attempts regraded.attempts
regrade_question-Regraded_example =
    regrade_question-Regraded fractions before regraded 2 4 12 (entry ∷ []) regrades

sub_found : submission_of regraded 7 ≡ some sub
unfolding submission_of
sub_found = refl

advance_submission-Advanced_example :
    (db' : RegradeTables Fraction) × (advance_submission regraded credited ≡ some db')
    × Advanced regraded credited sub db'
advance_submission-Advanced_example = advance_submission-Advanced regraded credited sub sub_found

abbrev after : RegradeTables Fraction
after = record regraded {
  submissions = record sub { status = SubmissionStatus.completed } ∷ [];
  overrides =
      record {
        plugin_config_id = 2;
        plugin_config_version = 4;
        question_id = 12;
        credit_all = true;
      }
      ∷ [];
  disputes =
      record (report 30) { status = accepted; resolved_by_user_id = some 9 }
      ∷ record (report 31) { status = accepted; resolved_by_user_id = some 9 }
      ∷ [];
  effects = finalize_grade 7 ∷ push_in_app 5 1 ∷ outbox_resolved (some 30) 1 (some entry) ∷ [];
}

abbrev outcome : DisputeOutcome
outcome = record {
  accepted_ruling = true;
  rescored = entry ∷ [];
  resolved_dispute_ids = 30 ∷ 31 ∷ [];
}

resolves : resolve_dispute fractions before (report 30) true 9 ≡ some (after, outcome)
unfolding resolve_dispute rule_accepted write_dispute write_siblings ruled same_key insert_override
    is_sibling rule_siblings sibling_ids advance_flipped push notify_classmates notify_students
    flipped is_open advance_submission advance_step to_teacher is_scored_submission write_submission
    add_effect quiz_complete squad_for_submission passed_on transition regrade_question regrade_loop
    rescore is_candidate is_regradable saw_question submission_of score_attempt answer_points
    snapshot_points apply_question_overrides
resolves = refl

resolve_dispute-closes_example :
    (any (open_report 2 4 12) after.disputes ≡ false)
    × (contains 12 (load_question_overrides after.overrides (some 2) (some 4)) ≡ true)
resolve_dispute-closes_example =
    resolve_dispute-closes fractions before after (report 30) 9 2 4 outcome resolves refl refl refl

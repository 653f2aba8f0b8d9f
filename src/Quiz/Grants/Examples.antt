-- ===== src/Quiz/Grants/Examples.antt =====
-- Two squad mates on one submission: the second has used both attempts and failed, the first passed.
use submissions_checker.Prelude.{
  ℕ, ◌+◌, ◌≡◌, refl, Bool, true, false, Option, none, some, List, [], ◌∷◌, arith, contains, opt_eq,
  length, ◌≤◌, Codes,
}
use submissions_checker.Submission.{Submission, zip_upload, failed, quiz_sent, transition}
use submissions_checker.Squads.State.{Squad, Tables, EntityType, squad_by_id, has_id}
use submissions_checker.Quiz.Attempt.{
  QuizAttempt, completed, timed_out, is_terminal, QuizAttemptStatus,
}
use submissions_checker.Quiz.Fractions.{Fraction}
use submissions_checker.Quiz.Completion.{
  squad_for_submission, enrolled_member_ids, passed_on, passed_student_ids, all_passed,
  quiz_complete,
}
use submissions_checker.Quiz.Completion.Members.{has_passed, quiz_complete-has_passed}
use submissions_checker.Quiz.Grants.{
  QuizTables, granted, extra_attempts, effective_max_attempts, grantable_status, is_exhausted,
  base_max_attempts, students_on, attempts_of, is_grantable, grantable_students,
  grant_extra_attempt,
}
use submissions_checker.Quiz.Grants.Cap.{grant_extra_attempt-grantable}

abbrev pair : Squad
pair = record {
  id = 3;
  subject_id = 1;
  created_by_student_id = some 5;
  created_by_user_id = none;
  locked = true;
  members = 6 ∷ 5 ∷ [];
}

abbrev tables : Tables
tables = record {
  squad_max_size = λ s. some 2;
  enrolled = λ s i. true;
  student_type = λ i. some EntityType.real;
  has_submissions = λ s i. true;
  has_user = λ i. true;
  squads = pair ∷ [];
  invites = [];
  next_squad = 4;
  next_invite = 1;
  notices = [];
  audits = [];
}

abbrev sub : Submission
sub = record {
  id = 7;
  students_assignment_id = 20;
  source_type = zip_upload;
  quiz_extra_attempts = none;
  status = failed;
  plugin_config_id = some 2;
  squad_id = some 3;
}

abbrev attempt : ℕ → ℕ → Bool → QuizAttemptStatus → QuizAttempt Fraction
attempt i student passed st = record {
  id = i;
  submission_id = 7;
  student_id = some student;
  plugin_config_id = some 2;
  plugin_config_version = some 1;
  config_snapshot = record { pass_threshold_pct = none; quiz_then_teacher = false };
  questions_snapshot = [];
  answers = [];
  force_fail = false;
  score = some 0;
  max_score = some 4;
  is_passed = some passed;
  status = st;
}

abbrev lab : Codes
lab = b'l' ∷ b'1' ∷ []

abbrev db : QuizTables Fraction
db = record {
  squad_tables = tables;
  owner_of = λ sa. some 5;
  code_of = λ sa. some lab;
  plugin_configs = (2, (lab, some 2) ∷ []) ∷ [];
  attempts =
      attempt 1 5 true completed ∷ attempt 2 6 false completed ∷ attempt 3 6 false timed_out ∷ [];
}

listed : grantable_students db sub ≡ 6 ∷ []
unfolding grantable_students base_max_attempts students_on squad_for_submission squad_by_id has_id
    enrolled_member_ids is_grantable grantable_status is_exhausted attempts_of
    effective_max_attempts extra_attempts is_terminal
listed = refl

base : base_max_attempts db sub ≡ some 2
unfolding base_max_attempts
base = refl

is_listed : contains 6 (grantable_students db sub) ≡ true
is_listed = rw listed refl

is_not_listed : contains 5 (grantable_students db sub) ≡ false
is_not_listed = rw listed refl

grant_extra_attempt-grantable_example :
    (moved : Submission) × (grant_extra_attempt db sub 6
      ≡ granted (extra_attempts sub (some 6) + 1) moved)
    × (moved.status ≡ quiz_sent)
    × (extra_attempts moved (some 6) ≡ extra_attempts sub (some 6) + 1)
    × ((j : Option ℕ) → opt_eq j (some 6) ≡ false → extra_attempts moved j ≡ extra_attempts sub j)
grant_extra_attempt-grantable_example = grant_extra_attempt-grantable db sub 6 is_listed

abbrev moved : Submission
moved = record sub { quiz_extra_attempts = some ((some 6, 1) ∷ []); status = quiz_sent }

grant : grant_extra_attempt db sub 6 ≡ granted 1 moved
unfolding grant_extra_attempt base_max_attempts students_on squad_for_submission squad_by_id has_id
    enrolled_member_ids is_grantable grantable_status is_exhausted attempts_of
    effective_max_attempts extra_attempts is_terminal transition
grant = refl

used_up : length (attempts_of db sub 6) ≤ 2 + extra_attempts sub (some 6)
unfolding attempts_of extra_attempts
used_up = ground arith

-- The quiz is not complete on the pass of one of the two; with a second pass it is.
abbrev retried : List (QuizAttempt Fraction)
retried = attempt 1 5 true completed ∷ attempt 2 6 false completed ∷ attempt 4 6 true completed ∷ []

of_pair : squad_for_submission tables sub ≡ some pair
unfolding squad_for_submission squad_by_id has_id
of_pair = refl

one_pass : quiz_complete tables db.attempts sub ≡ false
unfolding quiz_complete squad_for_submission squad_by_id has_id all_passed enrolled_member_ids
    passed_student_ids passed_on
one_pass = refl

two_passes : quiz_complete tables retried sub ≡ true
unfolding quiz_complete squad_for_submission squad_by_id has_id all_passed enrolled_member_ids
    passed_student_ids passed_on
two_passes = refl

quiz_complete-has_passed_example : has_passed retried 7 6 ≡ true
quiz_complete-has_passed_example =
    quiz_complete-has_passed tables retried sub pair 6 of_pair two_passes refl refl

everyone :
    (j : ℕ)
    → contains j pair.members ≡ true
    → tables.enrolled 1 j ≡ true
    → has_passed retried 7 j ≡ true
unfolding passed_on
everyone j c e = ground arith

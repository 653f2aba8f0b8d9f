-- ===== src/Grading/Weighted/Examples.antt =====
-- The grade of a squad of two, one of whom has no row of the assignment yet, in whole percents.
use submissions_checker.Prelude.{
  ℕ, ◌+◌, ◌-◌, ◌*◌, ◌/◌, ◌≡◌, sym, refl, true, false, Option, none, some, [], ◌∷◌, find, ltb, pos,
}
use submissions_checker.Squads.State.{Squad}
use submissions_checker.Quiz.Attempt.{QuizAttempt, completed}
use submissions_checker.Grading.Examples.{whole_percents}
use submissions_checker.Grading.Rows.{StudentAssignment, AssignmentRows, is_row}
use submissions_checker.Grading.Weighted.{
  GradeFloats, GradedAssignment, GradedSubmission, finalize_grade, grade_of, compute_grade, blend,
  present, sum_from, clamp, or_else, percentage, quiz_pct_of, squad_quiz_pct, best_from,
  count_attempt, keep_best,
}
use submissions_checker.Grading.Weighted.Unified.{finalize_grade-member}

abbrev whole : GradeFloats
whole = record {
  percent = whole_percents;
  zero_F = 0;
  one_F = 1;
  add = λ a b. a + b;
  mul = λ a b. a * b;
  div = λ a b. a / b;
  lt_F = ltb;
  scale = λ lo hi x. lo + (hi - lo) * x / 100;
  round = λ x. pos x;
  ceil6 = λ x. pos x;
  round2 = λ x. x;
  pct = λ s m. s * 100 / m;
  of_count = λ n. n;
}

abbrev team : Squad
team = record {
  id = 3;
  subject_id = 1;
  created_by_student_id = some 5;
  created_by_user_id = none;
  locked = true;
  members = 5 ∷ 6 ∷ [];
}

abbrev own : StudentAssignment
own = record {
  id = 20;
  student_id = 5;
  subjects_assignment_id = 9;
  grade = none;
  teacher_scores = none;
}

abbrev db : AssignmentRows
db = record { rows = own ∷ []; next_id = 21 }

abbrev attempt : ℕ → ℕ → QuizAttempt ℕ
attempt student_id score = record {
  id = 1;
  submission_id = 7;
  student_id = some student_id;
  plugin_config_id = none;
  plugin_config_version = none;
  config_snapshot = record { pass_threshold_pct = none; quiz_then_teacher = false };
  questions_snapshot = [];
  answers = [];
  force_fail = false;
  score = some score;
  max_score = some 10;
  is_passed = some true;
  status = completed;
}

abbrev assignment : GradedAssignment ℕ
assignment = record {
  id = 9;
  scored_config = none;
  grading = record {
    code_weight = none;
    quiz_weight = some 1;
    works_weight = none;
    quality_weight = some 0;
  };
  min_grade = 0;
  max_grade = 100;
}

abbrev sub : GradedSubmission ℕ ℕ
sub = record {
  owner = some (own, assignment);
  test_score = some 3;
  test_max_score = some 5;
  code_mark = none;
  quiz_attempts = attempt 5 10 ∷ attempt 6 7 ∷ attempt 5 9 ∷ [];
  squad = some team;
}

-- 60 for the code and the mean of 100 and 70 for the quiz.
abbrev graded : Option ℕ × AssignmentRows
graded = finalize_grade whole sub db

seventy_two : graded.0 ≡ some 72
unfolding finalize_grade grade_of compute_grade blend present sum_from clamp or_else percentage
    quiz_pct_of squad_quiz_pct best_from count_attempt keep_best
seventy_two = refl

runs : finalize_grade whole sub db ≡ (some 72, graded.1)
runs = rw (sym seventy_two) refl

finalize_grade-member_example :
    (mine : StudentAssignment) × (find (is_row 6 9) graded.1.rows ≡ some mine)
    × (mine.grade ≡ some 72)
finalize_grade-member_example =
    finalize_grade-member whole sub db graded.1 team own assignment 72 6 refl refl refl refl runs
      refl

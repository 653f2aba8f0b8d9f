-- ===== src/Quiz/Scoring/Examples.antt =====
-- The scoring theorems at a small attempt, with fractions for floats.
use submissions_checker.Prelude.{
  ◌&&◌, not, ℕ, ◌≤◌, ◌≡◌, refl, Bool, true, false, none, some, [], ◌∷◌, arith,
}
use submissions_checker.Quiz.Attempt.{QuestionSnapshot, QuizAnswer, QuizAttempt, completed}
use submissions_checker.Quiz.Scoring.{
  Scored, score_attempt, apply_question_overrides, answer_points, snapshot_points, has_answer,
}
use submissions_checker.Quiz.Scoring.Bounds.{worth, Fits}
use submissions_checker.Quiz.Scoring.Credit.{Distinct, in_snapshot}
use submissions_checker.Quiz.Scoring.Upsert.{points_for}
use submissions_checker.Quiz.Scoring.Overrides.{points_for-apply, score-apply}
use submissions_checker.Quiz.Fractions.{Fraction, fractions}

abbrev question : ℕ → ℕ → QuestionSnapshot
question i p = record { id = some i; points = some p; is_required = false }

abbrev row : ℕ → Bool → ℕ → QuizAnswer
row i c p = record {
  attempt_id = 1;
  question_id = i;
  is_correct = some c;
  points_earned = some p;
  timed_out = false;
}

-- Three questions, the second one wrong and the third one never reached: 2 of 6 points.
abbrev attempt : QuizAttempt Fraction
attempt = record {
  id = 1;
  submission_id = 7;
  student_id = some 5;
  plugin_config_id = some 2;
  plugin_config_version = some 4;
  config_snapshot = record { pass_threshold_pct = none; quiz_then_teacher = false };
  questions_snapshot = question 10 2 ∷ question 11 1 ∷ question 12 3 ∷ [];
  answers = row 10 true 2 ∷ row 11 false 0 ∷ [];
  force_fail = false;
  score = some 2;
  max_score = some 6;
  is_passed = some false;
  status = completed;
}

attempt-Distinct : Distinct attempt.questions_snapshot
unfolding in_snapshot
attempt-Distinct = ground arith

attempt-Fits : Fits attempt.questions_snapshot attempt.answers
unfolding worth has_answer
attempt-Fits = ground arith

abbrev before : Scored
before = record { score = 2; max_score = 6; is_passed = false; force_failed = false }

scored_sitting : score_attempt fractions attempt ≡ some before
unfolding score_attempt answer_points snapshot_points
scored_sitting = refl

-- Crediting the question that was never reached adds a row, and passes the attempt at 5 of 6.
credited_sitting :
    score_attempt fractions (apply_question_overrides attempt (12 ∷ [])).0
    ≡ some (record { score = 5; max_score = 6; is_passed = true; force_failed = false })
unfolding score_attempt answer_points snapshot_points apply_question_overrides
credited_sitting = refl

points_for-apply_example : points_for 12 (apply_question_overrides attempt (12 ∷ [])).0.answers ≡ 3
unfolding worth in_snapshot
points_for-apply_example = points_for-apply attempt (12 ∷ []) 12 attempt-Distinct attempt-Fits

score-apply_example :
    (t : Scored) × (score_attempt fractions (apply_question_overrides attempt (12 ∷ [])).0 ≡ some t)
    × (t.max_score ≡ before.max_score)
    × (before.score ≤ t.score)
    × (t.score ≤ t.max_score)
    × ((before.is_passed && not t.is_passed) ≡ false)
score-apply_example =
    score-apply fractions attempt (12 ∷ []) attempt-Distinct attempt-Fits scored_sitting

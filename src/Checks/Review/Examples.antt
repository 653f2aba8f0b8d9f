-- ===== src/Checks/Review/Examples.antt =====
-- A review whose provider fails once.
use submissions_checker.Prelude.{◌≡◌, ◌⊎◌, refl, false, none, some, []}
use submissions_checker.Submission.{
  Submission, SubmissionStatus, zip_upload, awaiting_ai_review, transition,
}
use submissions_checker.Checks.{
  quiz, CheckState, CheckError, raised, provider_error, review_crashed, and_then, move,
}
use submissions_checker.Checks.Review.{
  unusable, verdict, enter_reviewing, conclude_review, execute_ai_review,
}
use submissions_checker.Checks.Review.Retried.{execute_ai_review-retried}

abbrev waiting : Submission
waiting = record {
  id = 7;
  students_assignment_id = 20;
  source_type = zip_upload;
  quiz_extra_attempts = none;
  status = awaiting_ai_review;
  plugin_config_id = some 4;
  squad_id = none;
}

abbrev left : CheckState
left = record {
  submission = record waiting { status = SubmissionStatus.ai_review_failed };
  test_results = none;
  effects = [];
}

fails : execute_ai_review unusable quiz waiting ≡ raised left provider_error
unfolding execute_ai_review enter_reviewing conclude_review and_then move transition
fails = refl

execute_ai_review-retried_example :
    (execute_ai_review (verdict false) quiz left.submission
      ≡ execute_ai_review (verdict false) quiz waiting)
    × ((◌≡◌ {A = CheckError} provider_error provider_error)
        ⊎ (◌≡◌ {A = CheckError} provider_error review_crashed))
execute_ai_review-retried_example =
    execute_ai_review-retried unusable (verdict false) quiz quiz waiting left provider_error refl
      fails

-- ===== src/Submission/Examples.antt =====
-- Runs of the submission state machine, and the lifecycle's theorems at them.
use submissions_checker.Prelude.{◌≡◌, refl, ◌⊎◌, none, some, List, [], ◌∷◌}
use submissions_checker.Submission.{
  Event, Submission, zip_upload, pending, validating, testing, completed, failed, start_validation,
  validation_passed, test_passed_tests_only, quiz_passed, quiz_opened, transition,
}
use submissions_checker.Submission.Lifecycle.{
  Reach, here, next, Occurs, accept_all, completed_needs_gate, completed_reachable,
}

abbrev uploaded : Submission
uploaded = record {
  id = 7;
  students_assignment_id = 3;
  source_type = zip_upload;
  quiz_extra_attempts = none;
  status = pending;
  plugin_config_id = some 2;
  squad_id = none;
}

abbrev passed_checks : Submission
passed_checks = record uploaded { status = completed }

abbrev failed_quiz : Submission
failed_quiz = record uploaded { status = failed }

abbrev checks : List Event
checks = start_validation ∷ validation_passed ∷ test_passed_tests_only ∷ []

accept_checks : accept_all checks uploaded ≡ some passed_checks
unfolding accept_all transition
accept_checks = refl

quiz_passed_refused : transition failed_quiz quiz_passed ≡ none
unfolding transition
quiz_passed_refused = refl

checked :
    Reach uploaded
      (test_passed_tests_only ∷ validation_passed ∷ start_validation ∷ [])
      passed_checks
unfolding transition
checked =
    next {t = record uploaded { status = testing }} test_passed_tests_only
      (next {t = record uploaded { status = validating }} validation_passed
        (next start_validation here refl) refl)
      refl

completed_needs_gate_example :
    Occurs validation_passed (test_passed_tests_only ∷ validation_passed ∷ start_validation ∷ [])
    ⊎ Occurs quiz_opened (test_passed_tests_only ∷ validation_passed ∷ start_validation ∷ [])
completed_needs_gate_example = completed_needs_gate checked refl refl

completed_reachable_example :
    (es : List Event) × (accept_all es failed_quiz
      ≡ some (record failed_quiz { status = completed }))
completed_reachable_example = completed_reachable failed_quiz

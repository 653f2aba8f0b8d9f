-- ===== src/Checks/Examples.antt =====
-- A check of an archive that passes its tests, and one whose sandbox breaks down before it runs again.
use submissions_checker.Prelude.{◌≡◌, refl, true, none, some, []}
use submissions_checker.Submission.{Submission, zip_upload, pending, validating, transition}
use submissions_checker.Checks.{
  tests_then_ai_then_quiz, extracted, mounted, crashed, checked_passed, SandboxRun, CheckConfig,
  CheckInput, sandbox_crashed, raised, execute_check, check_with, run_checks, is_quiz_first,
  is_mounted, with_archive, and_then, move, conclude,
}
use submissions_checker.Checks.Settles.{is_settled, execute_check-settled}
use submissions_checker.Checks.Stuck.{is_stuck, execute_check-stuck}

abbrev configured : CheckConfig
configured = record {
  id = 4;
  review_mode = tests_then_ai_then_quiz;
  plan_resolves = true;
  subject_code_is_valid = true;
  tree = mounted;
}

abbrev input : SandboxRun → CheckInput
input run = record {
  latest = some configured;
  pinned = λ i. some configured;
  has_code = true;
  saved_as = true;
  archive = extracted;
  sandbox = run;
}

abbrev upload : Submission
upload = record {
  id = 7;
  students_assignment_id = 20;
  source_type = zip_upload;
  quiz_extra_attempts = none;
  status = pending;
  plugin_config_id = none;
  squad_id = none;
}

abbrev left : Submission
left = record upload { status = validating; plugin_config_id = some 4 }

breaks_down :
    execute_check (input crashed) upload
    ≡ raised (record { submission = left; test_results = none; effects = [] }) sandbox_crashed
unfolding execute_check check_with run_checks is_quiz_first is_mounted with_archive and_then move
    conclude transition
breaks_down = refl

execute_check-settled_example :
    is_settled (input checked_passed) (execute_check (input checked_passed) upload) ≡ true
execute_check-settled_example = execute_check-settled (input checked_passed) upload refl

execute_check-stuck_example : is_stuck (execute_check (input checked_passed) left) ≡ true
execute_check-stuck_example = execute_check-stuck (input checked_passed) left refl

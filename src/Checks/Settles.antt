-- ===== src/Checks/Settles.antt =====
-- workers/tasks/check_tasks.py: where a check leaves a submission.
use submissions_checker.Prelude.{
  ◌≡◌, refl, ◌&&◌, Bool, true, false, none, some, [], arith, Option-cases, Bool-cases, inl, inr,
  if◌then◌else◌,
}
use submissions_checker.Submission.{
  Submission, SubmissionStatus, pending, validating, validation_failed, test_failed,
  awaiting_ai_review, awaiting_teacher_review, quiz_sent, completed, transition,
}
use submissions_checker.Checks.{
  ReviewMode, tests_only, is_quiz_first, Archive, extracted, SandboxRun, checked_failed,
  checked_passed, CheckConfig, CheckInput, CheckState, invalid_transition, config_gone, no_saved_as,
  storage_failed, sandbox_crashed, provider_error, review_crashed, CheckOutcome, returned, raised,
  and_then, move, emit, write_results, is_pending, fail_validation, advance_after_tests,
  with_archive, accept_without_checks, conclude, run_checks, check_with, execute_check,
}

abbrev pub is_extracted : Archive → Bool
is_extracted extracted = true
is_extracted _ = false

abbrev pub is_validating : SubmissionStatus → Bool
is_validating validating = true
is_validating _ = false

-- The statuses that a check which ran may leave, by its result.
abbrev pub is_after : SandboxRun → SubmissionStatus → Bool
is_after checked_failed test_failed = true
is_after checked_passed awaiting_ai_review = true
is_after checked_passed awaiting_teacher_review = true
is_after checked_passed quiz_sent = true
is_after checked_passed completed = true
is_after _ _ = false

-- Or the quiz is open, or the validation has failed, whatever the sandbox would have said.
abbrev pub is_settled_at : Archive → SandboxRun → SubmissionStatus → Bool
is_settled_at archive run validation_failed = true
is_settled_at archive run quiz_sent = is_extracted archive
is_settled_at archive run status = is_extracted archive && is_after run status

abbrev pub is_settled : CheckInput → CheckOutcome → Bool
is_settled input (returned st) = is_settled_at input.archive input.sandbox st.submission.status
is_settled input (raised st invalid_transition) = false
is_settled input (raised st config_gone) = is_pending st.submission.status
is_settled input (raised st no_saved_as) = is_pending st.submission.status
is_settled input (raised st storage_failed) = is_pending st.submission.status
is_settled input (raised st sandbox_crashed) = is_validating st.submission.status
is_settled input (raised st provider_error) = false
is_settled input (raised st review_crashed) = false

fail_validation_pending :
    (input : CheckInput) (st : CheckState)
    → st.submission.status ≡ pending
    → is_settled input (fail_validation st) ≡ true
unfolding fail_validation and_then move write_results is_pending transition
fail_validation_pending input st h = ground arith

conclude-settled :
    (input : CheckInput) (mode : ReviewMode) (st : CheckState)
    → st.submission.status ≡ validating
    → input.archive ≡ extracted
    → is_settled input (conclude input.sandbox mode st) ≡ true
unfolding conclude and_then move write_results transition emit fail_validation advance_after_tests
    is_pending
conclude-settled input mode st h e = ground arith

accept_without_checks-settled :
    (input : CheckInput) (st : CheckState)
    → st.submission.status ≡ pending
    → is_settled input (accept_without_checks input st) ≡ true
unfolding accept_without_checks with_archive and_then move write_results transition
accept_without_checks-settled input st h = ground (arith, fail_validation_pending input st h)

run_checks-settled :
    (input : CheckInput) (config : CheckConfig) (mode : ReviewMode) (st : CheckState)
    → st.submission.status ≡ pending
    → is_settled input (run_checks input config mode st) ≡ true
unfolding run_checks with_archive and_then move transition
run_checks-settled input config mode st h =
    let started : CheckState = record st {
      submission = record st.submission { status = validating };
    } in
    ground (arith, fail_validation_pending input st h, conclude-settled input mode started refl)

check_with-settled :
    (input : CheckInput) (config : CheckConfig) (st : CheckState)
    → st.submission.status ≡ pending
    → is_settled input (check_with input config st) ≡ true
unfolding check_with
check_with-settled input config st h =
    let mode : ReviewMode = if input.has_code then config.review_mode else tests_only in
    elim (Bool-cases (is_quiz_first mode)) [
      | inl quiz ↦ rw (quiz, check_with) (accept_without_checks-settled input st h)
      | inr tests ↦ rw (tests, check_with) (run_checks-settled input config mode st h)
    ]

-- A check of a pending submission raises no error of the state machine. When it returns, the validation
-- has failed, or the archive was extracted and the submission stands where the result of the sandbox
-- allows, or at the quiz. When it raises, the pinned configuration or the name of the archive is missing
-- or the storage failed, and the submission is pending still, or the sandbox broke down and it is
-- validating.
pub execute_check-settled :
    (input : CheckInput) (sub : Submission)
    → sub.status ≡ pending
    → is_settled input (execute_check input sub) ≡ true
unfolding execute_check
execute_check-settled input sub h =
    let st : CheckState = record { submission = sub; test_results = none; effects = [] } in
    elim (Option-cases sub.plugin_config_id) [
      | inr (i, e) ↦ elim (Option-cases (input.pinned i)) [
        | inl n ↦ rw (e, n, execute_check) (ground (arith, h, is_pending))
        | inr (config, f) ↦ rw (e, f, execute_check) (check_with-settled input config st h)
      ]
      | inl e ↦ elim (Option-cases input.latest) [
        | inl n ↦ rw (e, n, execute_check) (fail_validation_pending input st h)
        | inr (config, f) ↦
            rw (e, f, execute_check)
              (check_with-settled input config
                (record st { submission = record sub { plugin_config_id = some config.id } }) h)
      ]
    ]

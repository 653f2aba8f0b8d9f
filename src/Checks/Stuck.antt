-- ===== src/Checks/Stuck.antt =====
-- workers/tasks/check_tasks.py: a submission that a broken run left in VALIDATING.
use submissions_checker.Prelude.{
  ◌≡◌, Bool, true, false, none, some, [], arith, Option-cases, Bool-cases, inl, inr, if◌then◌else◌,
}
use submissions_checker.Submission.{
  Submission, SubmissionStatus, validating, validation_failed, transition,
}
use submissions_checker.Checks.{
  ReviewMode, tests_only, is_quiz_first, CheckConfig, CheckInput, CheckState, CheckOutcome,
  returned, raised, and_then, move, write_results, is_pending, fail_validation, with_archive,
  accept_without_checks, run_checks, check_with, execute_check,
}
use submissions_checker.Checks.Settles.{is_validating}

abbrev pub is_validation_failed : SubmissionStatus → Bool
is_validation_failed validation_failed = true
is_validation_failed _ = false

-- A run that fails the validation, or raises and leaves the submission in VALIDATING.
abbrev pub is_stuck : CheckOutcome → Bool
is_stuck (returned st) = is_validation_failed st.submission.status
is_stuck (raised st error) = is_validating st.submission.status

fail_validation_stuck :
    (st : CheckState) → st.submission.status ≡ validating → is_stuck (fail_validation st) ≡ true
unfolding fail_validation and_then move write_results is_pending transition
fail_validation_stuck st h = ground arith

accept_without_checks-stuck :
    (input : CheckInput) (st : CheckState)
    → st.submission.status ≡ validating
    → is_stuck (accept_without_checks input st) ≡ true
unfolding accept_without_checks with_archive and_then move write_results transition
accept_without_checks-stuck input st h = ground (arith, fail_validation_stuck st h)

run_checks-stuck :
    (input : CheckInput) (config : CheckConfig) (mode : ReviewMode) (st : CheckState)
    → st.submission.status ≡ validating
    → is_stuck (run_checks input config mode st) ≡ true
unfolding run_checks with_archive and_then move transition
run_checks-stuck input config mode st h = ground (arith, fail_validation_stuck st h)

check_with-stuck :
    (input : CheckInput) (config : CheckConfig) (st : CheckState)
    → st.submission.status ≡ validating
    → is_stuck (check_with input config st) ≡ true
unfolding check_with
check_with-stuck input config st h =
    let mode : ReviewMode = if input.has_code then config.review_mode else tests_only in
    elim (Bool-cases (is_quiz_first mode)) [
      | inl quiz ↦ rw (quiz, check_with) (accept_without_checks-stuck input st h)
      | inr tests ↦ rw (tests, check_with) (run_checks-stuck input config mode st h)
    ]

-- Once a submission is in VALIDATING, where a breakdown of the sandbox leaves it, a later check never
-- passes it, whatever the archive and the sandbox are by then: each fails the validation or raises and
-- leaves the submission where it is.
pub execute_check-stuck :
    (input : CheckInput) (sub : Submission)
    → sub.status ≡ validating
    → is_stuck (execute_check input sub) ≡ true
unfolding execute_check
execute_check-stuck input sub h =
    let st : CheckState = record { submission = sub; test_results = none; effects = [] } in
    elim (Option-cases sub.plugin_config_id) [
      | inr (i, e) ↦ elim (Option-cases (input.pinned i)) [
        | inl n ↦ rw (e, n, execute_check) (ground (arith, h))
        | inr (config, f) ↦ rw (e, f, execute_check) (check_with-stuck input config st h)
      ]
      | inl e ↦ elim (Option-cases input.latest) [
        | inl n ↦ rw (e, n, execute_check) (fail_validation_stuck st h)
        | inr (config, f) ↦
            rw (e, f, execute_check)
              (check_with-stuck input config
                (record st { submission = record sub { plugin_config_id = some config.id } }) h)
      ]
    ]

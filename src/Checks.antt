-- ===== src/Checks.antt =====
-- workers/tasks/check_tasks.py: the check of an uploaded submission. What the archive, the stored subject
-- tree, the plan and the sandbox give is an argument of the run.
pub mod Settles
pub mod Stuck
pub mod Review
mod Examples
use submissions_checker.Prelude.{
  ℕ, ◌&&◌, Bool, true, false, Option, none, some, List, [], ◌∷◌, ◌++◌, if◌then◌else◌,
}
use submissions_checker.Submission.{
  Submission, SubmissionStatus, Event, pending, transition, start_validation, validation_passed,
  test_passed_tests_only, test_passed_ai, test_passed_teacher, test_passed_quiz,
}

-- `review_mode`; every other text goes the way of "tests_only".
pub data ReviewMode : Type 0 where
  tests_only tests_then_ai tests_then_teacher tests_then_quiz : ReviewMode
  tests_then_ai_then_teacher tests_then_ai_teacher tests_then_ai_then_quiz : ReviewMode
  quiz_only quiz_then_teacher quiz_and_teacher_scores : ReviewMode

-- `_QUIZ_FIRST_MODES`
unfoldable pub is_quiz_first : ReviewMode → Bool
is_quiz_first quiz_only = true
is_quiz_first quiz_then_teacher = true
is_quiz_first quiz_and_teacher_scores = true
is_quiz_first _ = false

-- The submitted archive: not in storage, not a ZIP, refused by `safe_extract`, extracted, or an error of
-- the storage that nothing catches.
pub data Archive : Type 0 where
  not_found unreadable unsafe extracted unavailable : Archive

-- The tree that the sandbox mounts.
pub data PluginTree : Type 0 where
  unusable missing mounted : PluginTree

-- What `run_check` gives; `execution_error` is its CheckExecutionError, `crashed` any other exception.
pub data SandboxRun : Type 0 where
  execution_error crashed checked_invalid checked_failed checked_passed : SandboxRun

-- A version of the subject's configuration, as this assignment reads it.
pub record CheckConfig : Type 0 where
  pub id : ℕ
  pub review_mode : ReviewMode
  pub plan_resolves : Bool
  pub subject_code_is_valid : Bool
  pub tree : PluginTree

pub record CheckInput : Type 0 where
  pub latest : Option CheckConfig
  pub pinned : ℕ → Option CheckConfig
  pub has_code : Bool
  pub saved_as : Bool
  pub archive : Archive
  pub sandbox : SandboxRun

-- `next_step` of the message for the review by a language model.
pub data NextStep : Type 0 where
  complete teacher quiz : NextStep

pub data CheckEffect : Type 0 where
  run_ai_review : NextStep → CheckEffect
  teacher_review_notification finalize_grade notify_failed notify_passed : CheckEffect
  ai_review_written : CheckEffect

-- `test_results`, without the texts and the tests.
pub data TestResults : Type 0 where
  check_reason skipped : TestResults
  ran : Bool → TestResults

pub record CheckState : Type 0 where
  pub submission : Submission
  pub test_results : Option TestResults
  pub effects : List CheckEffect

pub data CheckError : Type 0 where
  invalid_transition config_gone no_saved_as storage_failed sandbox_crashed : CheckError
  provider_error review_crashed : CheckError

-- A run that returns, or raises with what it has written so far.
pub data CheckOutcome : Type 0 where
  returned : CheckState → CheckOutcome
  raised : CheckState → CheckError → CheckOutcome

unfoldable pub and_then : CheckOutcome → (CheckState → CheckOutcome) → CheckOutcome
and_then (returned st) next = next st
and_then (raised st error) next = raised st error

unfoldable pub move : Event → CheckState → CheckOutcome
unfolding transition
move event st = elim (transition st.submission event) [
  | none ↦ raised st invalid_transition
  | some sub ↦ returned (record st { submission = sub })
]

unfoldable pub emit : CheckEffect → CheckState → CheckOutcome
emit effect st = returned (record st { effects = st.effects ++ effect ∷ [] })

unfoldable pub write_results : TestResults → CheckState → CheckState
write_results results st = record st { test_results = some results }

unfoldable pub is_pending : SubmissionStatus → Bool
is_pending pending = true
is_pending _ = false

-- `_fail_validation`
unfoldable pub fail_validation : CheckState → CheckOutcome
unfolding and_then move write_results is_pending
fail_validation st0 =
    let st = write_results check_reason st0 in
    if is_pending st.submission.status
    then and_then (move start_validation st) (move Event.validation_failed)
    else move Event.validation_failed st

-- `_advance_after_tests`
unfoldable pub advance_after_tests : ReviewMode → CheckState → CheckOutcome
unfolding and_then move emit
advance_after_tests tests_then_ai st =
    and_then (move test_passed_ai st) (emit (run_ai_review complete))
advance_after_tests tests_then_teacher st =
    and_then (move test_passed_teacher st) (emit teacher_review_notification)
advance_after_tests tests_then_ai_then_teacher st =
    and_then (move test_passed_ai st) (emit (run_ai_review teacher))
advance_after_tests tests_then_ai_teacher st =
    and_then (move test_passed_ai st) (emit (run_ai_review teacher))
advance_after_tests tests_then_ai_then_quiz st =
    and_then (move test_passed_ai st) (emit (run_ai_review quiz))
advance_after_tests tests_then_quiz st = move test_passed_quiz st
advance_after_tests _ st =
    and_then (and_then (move test_passed_tests_only st) (emit finalize_grade)) (emit notify_passed)

-- What follows an archive that was read, or not.
unfoldable pub with_archive : Archive → CheckState → (CheckState → CheckOutcome) → CheckOutcome
unfolding fail_validation
with_archive extracted st next = next st
with_archive unavailable st next = raised st storage_failed
with_archive _ st next = fail_validation st

-- `_accept_without_checks`
unfoldable pub accept_without_checks : CheckInput → CheckState → CheckOutcome
unfolding with_archive and_then move write_results
accept_without_checks input st =
    if input.saved_as
    then with_archive input.archive st (λ read.
      and_then
        (and_then (move start_validation (write_results skipped read)) (move validation_passed))
        (move test_passed_quiz))
    else raised st no_saved_as

-- The end of the run, from the transition to VALIDATING on; `moved` has taken it.
unfoldable pub conclude : SandboxRun → ReviewMode → CheckState → CheckOutcome
unfolding and_then move emit write_results fail_validation advance_after_tests
conclude execution_error mode moved = fail_validation moved
conclude crashed mode moved = raised moved sandbox_crashed
conclude checked_invalid mode moved =
    move Event.validation_failed (write_results check_reason moved)
conclude checked_failed mode moved =
    and_then
      (and_then (move validation_passed moved)
        (λ st. move Event.test_failed (write_results (ran false) st)))
      (emit notify_failed)
conclude checked_passed mode moved =
    and_then (move validation_passed moved)
      (λ st. advance_after_tests mode (write_results (ran true) st))

unfoldable pub is_mounted : PluginTree → Bool
is_mounted mounted = true
is_mounted _ = false

-- A mode that runs the checks. An assignment without a code, a plan that does not resolve, an invalid
-- subject code and a tree that is not there all fail the validation.
unfoldable pub run_checks : CheckInput → CheckConfig → ReviewMode → CheckState → CheckOutcome
unfolding fail_validation with_archive and_then move conclude is_mounted
run_checks input config mode st =
    if input.has_code
      && config.plan_resolves
      && config.subject_code_is_valid
      && is_mounted config.tree
    then (if input.saved_as
        then with_archive input.archive st
            (λ read. and_then (move start_validation read) (conclude input.sandbox mode))
        else raised st no_saved_as)
    else fail_validation st

-- `_execute_check` from the configuration on.
unfoldable pub check_with : CheckInput → CheckConfig → CheckState → CheckOutcome
unfolding is_quiz_first accept_without_checks run_checks
check_with input config st =
    let mode : ReviewMode = if input.has_code then config.review_mode else tests_only in
    if is_quiz_first mode then accept_without_checks input st else run_checks input config mode st

-- `_execute_check` on a submission that is found; its configuration is pinned at the first run.
unfoldable pub execute_check : CheckInput → Submission → CheckOutcome
unfolding check_with fail_validation
execute_check input sub =
    let st : CheckState = record { submission = sub; test_results = none; effects = [] } in
    elim sub.plugin_config_id [
      | some i ↦ elim (input.pinned i) [
        | none ↦ raised st config_gone
        | some config ↦ check_with input config st
      ]
      | none ↦ elim input.latest [
        | none ↦ fail_validation st
        | some config ↦
            check_with input config
              (record st { submission = record sub { plugin_config_id = some config.id } })
      ]
    ]

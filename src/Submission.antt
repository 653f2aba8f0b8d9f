-- ===== src/Submission.antt =====
-- core/state_machine.py, with db/models/enums.py and db/models/submission.py: the life of a
-- submission. An event is a string in the source; here it is a constructor for each string of the
-- table, and `unknown` for every other string.
pub mod Lifecycle
mod Examples
use submissions_checker.Prelude.{ℕ, Bool, true, false, Option, none, some, List, if◌then◌else◌}

pub data SubmissionStatus : Type 0 where
  pending validating validation_failed testing test_failed awaiting_ai_review : SubmissionStatus
  ai_reviewing ai_review_failed awaiting_teacher_review quiz_sent completed failed :
      SubmissionStatus

pub data Event : Type 0 where
  start_validation quiz_opened validation_passed validation_failed : Event
  test_failed test_passed_tests_only test_passed_ai test_passed_teacher test_passed_quiz : Event
  start_ai_review ai_review_done_teacher ai_review_done_completed ai_review_passed_quiz : Event
  ai_review_failed retry_ai_review ai_review_skip_to_teacher : Event
  quiz_passed quiz_passed_teacher quiz_failed quiz_attempt_granted : Event
  teacher_approve teacher_reject teacher_send_quiz : Event
  dispute_regrade_passed dispute_regrade_passed_teacher requeue_checks unknown : Event

-- The literal `_TRANSITIONS`, before the loop below it in the source.
base_transitions : SubmissionStatus → Event → Option SubmissionStatus
base_transitions pending start_validation = some validating
base_transitions pending quiz_opened = some quiz_sent
base_transitions validating validation_passed = some testing
base_transitions validating Event.validation_failed = some SubmissionStatus.validation_failed
base_transitions testing Event.test_failed = some SubmissionStatus.test_failed
base_transitions testing test_passed_tests_only = some completed
base_transitions testing test_passed_ai = some awaiting_ai_review
base_transitions testing test_passed_teacher = some awaiting_teacher_review
base_transitions testing test_passed_quiz = some quiz_sent
base_transitions awaiting_ai_review start_ai_review = some ai_reviewing
base_transitions ai_reviewing ai_review_done_teacher = some awaiting_teacher_review
base_transitions ai_reviewing ai_review_done_completed = some completed
base_transitions ai_reviewing ai_review_passed_quiz = some quiz_sent
base_transitions ai_reviewing Event.ai_review_failed = some SubmissionStatus.ai_review_failed
base_transitions SubmissionStatus.ai_review_failed retry_ai_review = some ai_reviewing
base_transitions SubmissionStatus.ai_review_failed ai_review_skip_to_teacher =
    some awaiting_teacher_review
base_transitions quiz_sent quiz_passed = some completed
base_transitions quiz_sent quiz_passed_teacher = some awaiting_teacher_review
base_transitions quiz_sent quiz_failed = some failed
base_transitions quiz_sent quiz_attempt_granted = some quiz_sent
base_transitions awaiting_teacher_review teacher_approve = some completed
base_transitions awaiting_teacher_review teacher_reject = some failed
base_transitions awaiting_teacher_review teacher_send_quiz = some quiz_sent
base_transitions failed dispute_regrade_passed = some completed
base_transitions failed dispute_regrade_passed_teacher = some awaiting_teacher_review
base_transitions failed quiz_attempt_granted = some quiz_sent
base_transitions _ _ = none

-- The statuses that the loop `for _status in (...)` gives a way back to PENDING.
is_requeueable : SubmissionStatus → Bool
is_requeueable pending = false
is_requeueable quiz_sent = false
is_requeueable completed = false
is_requeueable _ = true

-- `_TRANSITIONS` as the module leaves it: the loop writes the key "requeue_checks".
transitions : SubmissionStatus → Event → Option SubmissionStatus
unfolding base_transitions is_requeueable
transitions s requeue_checks = if is_requeueable s then some pending else none
transitions s e = base_transitions s e

pub data SubmissionSourceType : Type 0 where
  zip_upload quiz_only : SubmissionSourceType

-- The columns that the modelled code reads or writes. `quiz_extra_attempts` is the entry of
-- `source_metadata` under that key (`none`: no such key), its keys the texts of student ids, where
-- `none` stands for the text "None".
pub record Submission : Type 0 where
  pub id : ℕ
  pub students_assignment_id : ℕ
  pub source_type : SubmissionSourceType
  pub quiz_extra_attempts : Option (List (Option ℕ × ℕ))
  pub status : SubmissionStatus
  pub plugin_config_id : Option ℕ
  pub squad_id : Option ℕ

-- `none` is `InvalidTransitionError`; otherwise the submission with the status written.
unfoldable pub transition : Submission → Event → Option Submission
unfolding transitions
transition sub event = elim (transitions sub.status event) [
  | none ↦ none
  | some next_status ↦ some (record sub { status = next_status })
]

-- ===== src/Checks/Review.antt =====
-- workers/tasks/review_tasks.py: the review of a submission by a language model. What the provider answers
-- is an argument of the run, and whether `is_flagged` finds the verdict suspicious.
pub mod Retried
mod Examples
use submissions_checker.Prelude.{ℕ, Bool, true, false, Option, none, List, [], if◌then◌else◌}
use submissions_checker.Submission.{
  Submission, SubmissionStatus, Event, awaiting_ai_review, ai_reviewing, start_ai_review,
  retry_ai_review, ai_review_done_teacher, ai_review_done_completed, ai_review_passed_quiz,
}
use submissions_checker.Checks.{
  NextStep, complete, teacher, quiz, CheckState, CheckOutcome, returned, raised, provider_error,
  review_crashed, and_then, move, emit, teacher_review_notification, finalize_grade,
  ai_review_written,
}

-- `unusable` is an AIProviderError, a verdict without its fields included; `crashed` any other exception.
pub data Review : Type 0 where
  unusable crashed : Review
  verdict : Bool → Review

-- `_enter_reviewing`
unfoldable pub enter_reviewing : CheckState → CheckOutcome
unfolding move
enter_reviewing st = elim st.submission.status [
  | SubmissionStatus.ai_review_failed ↦ move retry_ai_review st
  | ai_reviewing ↦ returned st
  | _ ↦ move start_ai_review st
]

-- What follows a verdict; `is_flagged` matters before a quiz only.
unfoldable pub after_review : NextStep → Bool → CheckState → CheckOutcome
unfolding and_then move emit
after_review quiz flagged st =
    if flagged
    then and_then (move ai_review_done_teacher st) (emit teacher_review_notification)
    else move ai_review_passed_quiz st
after_review teacher flagged st =
    and_then (move ai_review_done_teacher st) (emit teacher_review_notification)
after_review complete flagged st = and_then (move ai_review_done_completed st) (emit finalize_grade)

-- A submission under review, from the call of the provider on.
unfoldable pub conclude_review : Review → NextStep → CheckState → CheckOutcome
unfolding and_then move emit after_review
conclude_review crashed next_step st = raised st review_crashed
conclude_review unusable next_step st =
    and_then (move Event.ai_review_failed st) (λ failed. raised failed provider_error)
conclude_review (verdict flagged) next_step st =
    and_then (emit ai_review_written st) (after_review next_step flagged)

-- `_execute_ai_review` on a submission that is found.
unfoldable pub execute_ai_review : Review → NextStep → Submission → CheckOutcome
unfolding enter_reviewing conclude_review and_then
execute_ai_review review next_step sub =
    and_then (enter_reviewing (record { submission = sub; test_results = none; effects = [] }))
      (conclude_review review next_step)

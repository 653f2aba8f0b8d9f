-- ===== src/Checks/Review/Retried.antt =====
-- workers/tasks/review_tasks.py: a review that failed is taken up again as if it had not been tried.
use submissions_checker.Prelude.{◌≡◌, ◌⊎◌, refl, Bool, true, false, none, [], arith}
use submissions_checker.Submission.{
  Submission, SubmissionStatus, awaiting_ai_review, ai_reviewing, transition,
}
use submissions_checker.Checks.{
  NextStep, CheckState, CheckError, returned, raised, and_then, move, emit, provider_error,
  review_crashed,
}
use submissions_checker.Checks.Review.{
  Review, enter_reviewing, after_review, conclude_review, execute_ai_review,
}

-- The statuses in which the review of a submission is due or was left.
abbrev pub is_reviewable : SubmissionStatus → Bool
is_reviewable awaiting_ai_review = true
is_reviewable ai_reviewing = true
is_reviewable SubmissionStatus.ai_review_failed = true
is_reviewable _ = false

enter_reviewing_lem :
    (st : CheckState)
    → is_reviewable st.submission.status ≡ true
    → enter_reviewing st
      ≡ returned (record st { submission = record st.submission { status = ai_reviewing } })
unfolding enter_reviewing move transition
enter_reviewing_lem st h = ground arith

execute_ai_review-conclude :
    (review : Review) (next_step : NextStep) (sub : Submission)
    → is_reviewable sub.status ≡ true
    → execute_ai_review review next_step sub
      ≡ conclude_review review next_step (record {
        submission = record sub { status = ai_reviewing };
        test_results = none;
        effects = [];
      })
unfolding execute_ai_review and_then
execute_ai_review-conclude review next_step sub h =
    ground (
      arith,
      enter_reviewing_lem (record { submission = sub; test_results = none; effects = [] }) h,
    )

-- What a review that raises leaves of a submission under review.
conclude_review-raised :
    (review : Review) (next_step : NextStep) (st left : CheckState) (error : CheckError)
    → st.submission.status ≡ ai_reviewing
    → conclude_review review next_step st ≡ raised left error
    → (is_reviewable left.submission.status ≡ true)
      × (record left.submission { status = ai_reviewing } ≡ st.submission)
      × ((error ≡ provider_error) ⊎ (error ≡ review_crashed))
unfolding conclude_review and_then move emit after_review transition
conclude_review-raised review next_step st left error h run = ground arith

-- A review that is due and fails leaves the submission so that every later review gives what it would
-- have given without the failed one. It fails only by the provider or a breakdown, never by the state
-- machine.
pub execute_ai_review-retried :
    (first later : Review) (next_step next_step' : NextStep) (sub : Submission) (left : CheckState)
    (error : CheckError)
    → is_reviewable sub.status ≡ true
    → execute_ai_review first next_step sub ≡ raised left error
    → (execute_ai_review later next_step' left.submission ≡ execute_ai_review later next_step' sub)
      × ((error ≡ provider_error) ⊎ (error ≡ review_crashed))
execute_ai_review-retried first later next_step next_step' sub left error h run =
    let (again, same, fault) =
      conclude_review-raised first next_step
        (record {
          submission = record sub { status = ai_reviewing };
          test_results = none;
          effects = [];
        })
        left error refl (rw (execute_ai_review-conclude first next_step sub h) at run) in
    (
      ground (
        arith,
        same,
        execute_ai_review-conclude later next_step' left.submission again,
        execute_ai_review-conclude later next_step' sub h,
      ),
      fault,
    )

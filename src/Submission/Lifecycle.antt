-- ===== src/Submission/Lifecycle.antt =====
-- The lifecycle that core/state_machine.py allows, read off whole histories of a submission: what
-- can be reached, from where, and by which events.
use submissions_checker.Prelude.{
  ◌≡◌, refl, ◌⊎◌, inl, inr, Bool, true, false, Option, none, some, List, [], ◌∷◌, arith,
}
use submissions_checker.Submission.{
  SubmissionStatus, Event, Submission, transition, pending, validating, testing, awaiting_ai_review,
  ai_reviewing, awaiting_teacher_review, quiz_sent, completed, failed, start_validation,
  quiz_opened, validation_passed, test_passed_tests_only, start_ai_review, ai_review_done_completed,
  ai_review_skip_to_teacher, quiz_passed, quiz_attempt_granted, teacher_approve,
  dispute_regrade_passed, dispute_regrade_passed_teacher, requeue_checks,
}

-- A history: the events that were accepted one after another, the latest first.
pub data Reach (s : Submission) : List Event → Submission → Type 0 where
  here : Reach s [] s
  next :
      {t u : Submission} {es : List Event} (e : Event)
      → Reach s es t
      → transition t e ≡ some u
      → Reach s (e ∷ es) u

abbrev pub Occurs : Event → List Event → Type 0
Occurs a [] = ⊥
Occurs a (e ∷ es) = (e ≡ a) ⊎ Occurs a es

-- The events that end a history at COMPLETED, each with the status it is accepted in.
pub data Completes : SubmissionStatus → Event → Type 0 where
  tests_only : Completes testing test_passed_tests_only
  reviewed : Completes ai_reviewing ai_review_done_completed
  quizzed : Completes quiz_sent quiz_passed
  approved : Completes awaiting_teacher_review teacher_approve
  regraded : Completes failed dispute_regrade_passed

ruleset completions = (tests_only, reviewed, quizzed, approved, regraded)

-- A submission becomes COMPLETED only by one of five events, each in its own status.
pub transition-Completes :
    (s t : Submission) (e : Event)
    → transition s e ≡ some t
    → t.status ≡ completed
    → Completes s.status e
unfolding transition
transition-Completes s t e h c = grind (arith, completions)

-- The events that a FAILED submission accepts, with the status that each leads to.
pub data Revives : Event → SubmissionStatus → Type 0 where
  regrade : Revives dispute_regrade_passed completed
  regrade_teacher : Revives dispute_regrade_passed_teacher awaiting_teacher_review
  granted : Revives quiz_attempt_granted quiz_sent
  requeued : Revives requeue_checks pending

ruleset revivals = (regrade, regrade_teacher, granted, requeued)

-- A FAILED submission moves only by a regrade to COMPLETED or to the teacher, by a granted
-- attempt to QUIZ_SENT or by a requeue to PENDING.
pub transition-Revives :
    (s t : Submission) (e : Event)
    → transition s e ≡ some t
    → s.status ≡ failed
    → Revives e t.status
unfolding transition
transition-Revives s t e h c = grind (arith, revivals)

completed_refuses : (s : Submission) (e : Event) → s.status ≡ completed → transition s e ≡ none
unfolding transition
completed_refuses s e h = ground arith

-- The statuses in which nothing has been accepted of the student's work yet.
abbrev is_early : SubmissionStatus → Bool
is_early pending = true
is_early validating = true
is_early SubmissionStatus.validation_failed = true
is_early _ = false

early_step :
    (s t : Submission) (e : Event)
    → transition s e ≡ some t
    → is_early s.status ≡ true
    → (is_early t.status ≡ true) ⊎ (e ≡ validation_passed) ⊎ (e ≡ quiz_opened)
unfolding transition
early_step s t e h c = ground arith

early_history :
    {s t : Submission} {es : List Event}
    → Reach s es t
    → is_early s.status ≡ true
    → (is_early t.status ≡ true) ⊎ Occurs validation_passed es ⊎ Occurs quiz_opened es
early_history here h = inl h
early_history (next {t = t} {u = u} e r st) h = elim (early_history r h) [
  | inl early ↦ elim (early_step t u e st early) [
    | inl still ↦ inl still
    | inr (inl v) ↦ inr (inl (inl v))
    | inr (inr q) ↦ inr (inr (inl q))
  ]
  | inr (inl v) ↦ inr (inl (inr v))
  | inr (inr q) ↦ inr (inr (inr q))
]

-- Whatever happens to a PENDING submission, it is not COMPLETED before its archive has passed
-- validation or its quiz has been opened without one.
pub completed_needs_gate :
    {s t : Submission} {es : List Event}
    → Reach s es t
    → s.status ≡ pending
    → t.status ≡ completed
    → Occurs validation_passed es ⊎ Occurs quiz_opened es
completed_needs_gate r h c = elim (early_history r (ground arith)) [
  | inl early ↦ absurd (ground arith)
  | inr gate ↦ gate
]

-- A history that begins at COMPLETED is empty.
pub completed_is_final :
    {s t : Submission} {es : List Event} → Reach s es t → s.status ≡ completed → (es ≡ []) × (t ≡ s)
completed_is_final here h = (refl, refl)
completed_is_final (next {t = t} e r st) h =
    let (_, same) = completed_is_final r h in
    absurd (ground (arith, completed_refuses t e (ground arith)))

-- The events that lead on to COMPLETED, from each status.
completing : SubmissionStatus → List Event
completing pending = start_validation ∷ validation_passed ∷ test_passed_tests_only ∷ []
completing validating = validation_passed ∷ test_passed_tests_only ∷ []
completing testing = test_passed_tests_only ∷ []
completing awaiting_ai_review = start_ai_review ∷ ai_review_done_completed ∷ []
completing ai_reviewing = ai_review_done_completed ∷ []
completing SubmissionStatus.ai_review_failed = ai_review_skip_to_teacher ∷ teacher_approve ∷ []
completing awaiting_teacher_review = teacher_approve ∷ []
completing quiz_sent = quiz_passed ∷ []
completing completed = []
completing _ = requeue_checks ∷ start_validation ∷ validation_passed ∷ test_passed_tests_only ∷ []

-- The events in the order given, until one is refused.
unfoldable pub accept_all : List Event → Submission → Option Submission
accept_all [] s = some s
accept_all (e ∷ es) s = elim (transition s e) [ none ↦ none | some t ↦ accept_all es t ]

accept_completing :
    (p : SubmissionStatus) (s : Submission)
    → s.status ≡ p
    → accept_all (completing p) s ≡ some (record s { status = completed })
unfolding accept_all completing transition
accept_completing pending s h = ground arith
accept_completing _ s h = ground arith

-- No status is a dead end: from every one some events are all accepted and end at COMPLETED, and
-- nothing but the status of the submission has changed.
pub completed_reachable :
    (s : Submission)
    → (es : List Event) × (accept_all es s ≡ some (record s { status = completed }))
completed_reachable s = (completing s.status, accept_completing s.status s refl)

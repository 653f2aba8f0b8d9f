-- ===== src/Quiz/Completion.antt =====
-- services/squads.py, the submission scope: whose passes complete the quiz of a submission.
pub mod Members
use submissions_checker.Prelude.{
  ℕ, Bool, true, false, not, ◌&&◌, ◌||◌, Option, none, some, List, [], ◌∷◌, filter, any, all,
  contains, ◌==◌, if◌then◌else◌, is_true,
}
use submissions_checker.Submission.{Submission}
use submissions_checker.Squads.State.{Squad, Tables, squad_by_id}
use submissions_checker.Quiz.Attempt.{QuizAttempt}

unfoldable pub squad_for_submission : Tables → Submission → Option Squad
squad_for_submission db sub = elim sub.squad_id [ none ↦ none | some i ↦ squad_by_id db i ]

unfoldable pub enrolled_member_ids : Tables → Squad → List ℕ
enrolled_member_ids db squad = filter (λ i. db.enrolled squad.subject_id i) squad.members

-- `bool(needed) and needed <= passed`
unfoldable pub all_passed : List ℕ → List ℕ → Bool
all_passed [] passed = false
all_passed (i ∷ needed) passed = all (λ j. contains j passed) (i ∷ needed)

module _ {ℓ} {F : Type ℓ} where
  -- A passing row of quiz_attempts on this submission.
  unfoldable pub passed_on : ℕ → QuizAttempt F → Bool
  passed_on submission_id a = a.submission_id == submission_id && is_true a.is_passed

  unfoldable pub passed_student_ids : List (QuizAttempt F) → ℕ → List ℕ
  passed_student_ids [] submission_id = []
  passed_student_ids (a ∷ attempts) submission_id =
      let rest = passed_student_ids attempts submission_id in
      if passed_on submission_id a
      then (elim a.student_id [ none ↦ rest | some i ↦ i ∷ rest ])
      else rest

  unfoldable pub quiz_complete : Tables → List (QuizAttempt F) → Submission → Bool
  quiz_complete db attempts sub = elim (squad_for_submission db sub) [
    | none ↦ any (passed_on sub.id) attempts
    | some squad ↦ all_passed (enrolled_member_ids db squad) (passed_student_ids attempts sub.id)
  ]

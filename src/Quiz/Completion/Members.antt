-- ===== src/Quiz/Completion/Members.antt =====
-- services/squads.py `quiz_complete`: when the quiz of a squad's submission is complete.
use submissions_checker.Prelude.{
  ℕ, ◌≡◌, refl, ◌∙◌, Bool, true, ◌&&◌, some, List, [], ◌∷◌, arith, any, all, contains,
  contains-filter, opt_eq,
}
use submissions_checker.Submission.{Submission}
use submissions_checker.Squads.State.{Squad, Tables}
use submissions_checker.Quiz.Attempt.{QuizAttempt}
use submissions_checker.Quiz.Completion.{
  squad_for_submission, enrolled_member_ids, passed_on, passed_student_ids, all_passed,
  quiz_complete,
}

all-contains :
    (passed : List ℕ) (xs : List ℕ) (i : ℕ)
    → all (λ j. contains j passed) xs ≡ true
    → contains i xs ≡ true
    → contains i passed ≡ true
all-contains passed [] i h m = absurd (ground arith)
all-contains passed (x ∷ xs) i h m = ground (arith, all-contains passed xs i)

all-contains_intro :
    (passed xs : List ℕ)
    → ((i : ℕ) → contains i xs ≡ true → contains i passed ≡ true)
    → all (λ j. contains j passed) xs ≡ true
all-contains_intro passed [] h = refl
all-contains_intro passed (x ∷ xs) h =
    ground (arith, h x (ground arith), all-contains_intro passed xs (λ i e. h i (ground arith)))

all_passed-intro :
    (i : ℕ) (needed passed : List ℕ)
    → contains i needed ≡ true
    → all (λ j. contains j passed) needed ≡ true
    → all_passed needed passed ≡ true
unfolding all_passed
all_passed-intro i [] passed m h = absurd (ground arith)
all_passed-intro i (x ∷ xs) passed m h = h

module _ {ℓ} {F : Type ℓ} where
  -- Some attempt of this student at this submission passed.
  abbrev pub has_passed : List (QuizAttempt F) → ℕ → ℕ → Bool
  has_passed attempts submission_id i =
      any (λ a. passed_on submission_id a && opt_eq a.student_id (some i)) attempts

  contains-passed_student_ids :
      (attempts : List (QuizAttempt F)) (submission_id i : ℕ)
      → contains i (passed_student_ids attempts submission_id) ≡ has_passed attempts submission_id i
  unfolding passed_student_ids
  contains-passed_student_ids [] submission_id i = refl
  contains-passed_student_ids (a ∷ attempts) submission_id i =
      ground (arith, contains-passed_student_ids attempts submission_id i)

  -- When the quiz of a squad's submission is complete, every member who is still enrolled has a
  -- passing attempt of their own on that submission; a pass of one member never stands in for
  -- another's.
  pub quiz_complete-has_passed :
      (db : Tables) (attempts : List (QuizAttempt F)) (sub : Submission) (squad : Squad) (i : ℕ)
      → squad_for_submission db sub ≡ some squad
      → quiz_complete db attempts sub ≡ true
      → contains i squad.members ≡ true
      → db.enrolled squad.subject_id i ≡ true
      → has_passed attempts sub.id i ≡ true
  unfolding quiz_complete all_passed enrolled_member_ids
  quiz_complete-has_passed db attempts sub squad i e h m en =
      let members = enrolled_member_ids db squad in
      ground (
        arith,
        contains-passed_student_ids attempts sub.id i,
        all-contains (passed_student_ids attempts sub.id) members i,
        contains-filter (λ j. db.enrolled squad.subject_id j) i squad.members,
      )

  -- Where a squad's submission has at least one enrolled member, and every enrolled member has a
  -- passing attempt on it, its quiz is complete.
  pub has_passed-quiz_complete :
      (db : Tables) (attempts : List (QuizAttempt F)) (sub : Submission) (squad : Squad) (i : ℕ)
      → squad_for_submission db sub ≡ some squad
      → contains i squad.members ≡ true
      → db.enrolled squad.subject_id i ≡ true
      → ((j : ℕ)
          → contains j squad.members ≡ true
          → db.enrolled squad.subject_id j ≡ true
          → has_passed attempts sub.id j ≡ true)
      → quiz_complete db attempts sub ≡ true
  unfolding quiz_complete enrolled_member_ids
  has_passed-quiz_complete db attempts sub squad i e m en h =
      rw (e, quiz_complete)
        (all_passed-intro i (enrolled_member_ids db squad) (passed_student_ids attempts sub.id)
          (ground (arith, contains-filter (λ j. db.enrolled squad.subject_id j) i squad.members))
          (all-contains_intro (passed_student_ids attempts sub.id) (enrolled_member_ids db squad)
            (λ j c.
              contains-passed_student_ids attempts sub.id j
              ∙ ground (
                arith,
                contains-filter (λ l. db.enrolled squad.subject_id l) j squad.members,
                h j,
              ))))

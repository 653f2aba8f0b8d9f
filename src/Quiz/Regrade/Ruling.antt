-- ===== src/Quiz/Regrade/Ruling.antt =====
-- services/quiz_regrade.py `_advance_submission`: when a flipped attempt moves its submission.
use submissions_checker.Prelude.{
  ℕ, ◌≡◌, refl, sym, subst, Bool, true, some, List, [], ◌∷◌, arith, inl, inr, ◌⊎◌, ◌==◌,
  if◌then◌else◌, find, modify_first,
}
use submissions_checker.Submission.{
  Submission, SubmissionStatus, Event, transition, completed, failed, quiz_sent,
  awaiting_teacher_review,
}
use submissions_checker.Quiz.Attempt.{QuizAttempt}
use submissions_checker.Quiz.Completion.{quiz_complete}
use submissions_checker.Quiz.Regrade.{
  RegradeTables, Advance, stay, grade_again, move, advance_step, advance_submission, submission_of,
  to_teacher, write_submission, add_effect, finalize_grade, enqueue_teacher_review,
}

-- The status that a flip leads to.
abbrev pub landing : Bool → SubmissionStatus
landing teacher = if teacher then awaiting_teacher_review else completed

-- The table accepts every event that the decision names, and the decision needs a complete quiz.
transition-move :
    (sub : Submission) (teacher complete : Bool) (e : Event)
    → advance_step sub.status teacher complete ≡ move e
    → transition sub e ≡ some (record sub { status = landing teacher })
unfolding advance_step transition
transition-move sub teacher complete e h = ground arith

move_complete :
    (st : SubmissionStatus) (teacher complete : Bool) (e : Event)
    → advance_step st teacher complete ≡ move e
    → (complete ≡ true) × ((st ≡ failed) ⊎ (st ≡ quiz_sent))
unfolding advance_step
move_complete st teacher complete e h = ground arith

Advance-cases : (s : Advance) → (s ≡ stay) ⊎ ((s ≡ grade_again) ⊎ ((e : Event) × (s ≡ move e)))
Advance-cases stay = inl refl
Advance-cases grade_again = inr (inl refl)
Advance-cases (move e) = inr (inr (e, refl))

find-modify_first :
    (i : ℕ) (moved sub : Submission) (subs : List Submission)
    → moved.id ≡ i
    → find (λ s. s.id == i) subs ≡ some sub
    → find (λ s. s.id == i) (modify_first (λ s. s.id == i) (λ _. moved) subs) ≡ some moved
find-modify_first i moved sub [] m e = absurd (ground arith)
find-modify_first i moved sub (s ∷ subs) m e = ground (arith, find-modify_first i moved sub subs m)

find-id :
    (i : ℕ) (sub : Submission) (subs : List Submission)
    → find (λ s. s.id == i) subs ≡ some sub
    → sub.id ≡ i
find-id i sub [] e = absurd (ground arith)
find-id i sub (s ∷ subs) e = ground (arith, find-id i sub subs)

module _ {ℓ} {F : Type ℓ} where
  -- What `_advance_submission` left of the submission of the attempt: moved to the status of a pass,
  -- which needs a complete quiz and a FAILED or QUIZ_SENT submission, or as it was.
  pub data Advanced (db : RegradeTables F) (a : QuizAttempt F) (sub : Submission)
      (db' : RegradeTables F) : Type ℓ where
    kept : db'.submissions ≡ db.submissions → Advanced db a sub db'
    moved :
        quiz_complete db.squad_tables db.attempts sub ≡ true
        → (sub.status ≡ failed) ⊎ (sub.status ≡ quiz_sent)
        → submission_of db' sub.id ≡ some (record sub { status = landing (to_teacher db sub a) })
        → Advanced db a sub db'

  -- Advancing the submission of an attempt, where that is on record, never raises an
  -- InvalidTransitionError. It leaves the submissions as they were, or moves this one: then its
  -- quiz is complete, it was FAILED or QUIZ_SENT, and it is now COMPLETED, or waits for the
  -- teacher where the teacher's half is missing.
  pub advance_submission-Advanced :
      (db : RegradeTables F) (a : QuizAttempt F) (sub : Submission)
      → submission_of db a.submission_id ≡ some sub
      → (db' : RegradeTables F) × (advance_submission db a ≡ some db') × Advanced db a sub db'
  unfolding advance_submission write_submission add_effect submission_of
  advance_submission-Advanced db a sub found =
      let teacher = to_teacher db sub a in
      let complete = quiz_complete db.squad_tables db.attempts sub in
      elim (Advance-cases (advance_step sub.status teacher complete)) [
        | inl s ↦ (db, ground (arith, found, s), kept refl)
        | inr (inl s) ↦ (add_effect (finalize_grade sub.id) db, ground (arith, found, s), kept refl)
        | inr (inr (e, s)) ↦
            let t = transition-move sub teacher complete e s in
            let (c, st) = move_complete sub.status teacher complete e s in
            let m : Submission = record sub { status = landing teacher } in
            let effect = if teacher then enqueue_teacher_review sub.id else finalize_grade sub.id in
            let same : sub.id ≡ a.submission_id =
              find-id a.submission_id sub db.submissions found in
            (
              add_effect effect (write_submission m db),
              ground (arith, found, s, t),
              moved c st (
                  find-modify_first sub.id m sub db.submissions refl (
                    subst (λ i. find (λ s. s.id == i) db.submissions ≡ some sub) (sym same) found)),
            )
      ]

-- ===== src/Taking/Start/Capped.antt =====
-- api/routes/student_quiz.py `start_or_resume_quiz`: no attempt starts beyond the cap, and one that
-- starts is on the track that the requests keep it on.
use submissions_checker.Prelude.{
  ℕ, ◌+◌, ◌≤◌, ◌≡◌, inl, inr, refl, Bool, true, false, Option, none, some, List, [], ◌∷◌, arith,
  any, all, length, ltb, is_true, Option-cases,
}
use submissions_checker.Submission.{Submission}
use submissions_checker.Quiz.Attempt.{QuizAttempt, is_terminal}
use submissions_checker.Quiz.Completion.{squad_for_submission}
use submissions_checker.Quiz.Grants.{QuizTables, attempts_of, effective_max_attempts}
use submissions_checker.Taking.{TakenAttempt}
use submissions_checker.Taking.Share.{SquadDraw, Shuffles}
use submissions_checker.Taking.Finish.{is_quiz_sent}
use submissions_checker.Taking.Start.{
  QuizSetup, started, has_capacity, used_count, running, passed, create_attempt,
  start_or_resume_quiz,
}

module _ {ℓ} {F : Type ℓ} where
  -- Without a running attempt every attempt is used.
  used_count-length :
      (existing : List (QuizAttempt F))
      → running existing ≡ none
      → (used_count existing ≡ length existing) × (all (λ a. is_terminal a.status) existing ≡ true)
  unfolding used_count running
  used_count-length [] h = (refl, refl)
  used_count-length (a ∷ existing) h = ground (arith, used_count-length existing)

  passed-any :
      (existing : List (QuizAttempt F))
      → passed existing ≡ none
      → any (λ a. is_true a.is_passed) existing ≡ false
  unfolding passed
  passed-any [] h = refl
  passed-any (a ∷ existing) h = ground (arith, passed-any existing)

module _ (sh : Shuffles) where
  -- What has to hold for an attempt to start.
  start-create_attempt {ℓ} :
      {F : Type ℓ} (consented : Bool) (db : QuizTables F) (id now : ℕ) (latest : Option Submission)
      (student_id : ℕ) (setup : Option (QuizSetup F)) (stored draw : Option SquadDraw)
      (s : TakenAttempt F) (sub : Submission)
      → latest ≡ some sub
      → start_or_resume_quiz sh consented db id now latest student_id setup stored ≡ started s draw
      → (quiz : QuizSetup F) × (setup ≡ some quiz)
        × (is_quiz_sent sub.status ≡ true)
        × (running (attempts_of db sub student_id) ≡ none)
        × (passed (attempts_of db sub student_id) ≡ none)
        × (has_capacity
              (effective_max_attempts quiz.max_quiz_attempts sub (some student_id))
              (used_count (attempts_of db sub student_id))
            ≡ true)
        × (create_attempt sh id now sub student_id quiz
              (squad_for_submission db.squad_tables sub)
              (ltb 0 (used_count (attempts_of db sub student_id)))
              stored
            ≡ started s draw)
  unfolding start_or_resume_quiz
  start-create_attempt consented db id now latest student_id setup stored draw s sub found h =
      let existing = attempts_of db sub student_id in
      elim (Option-cases (running existing)) [
        | inr (a, e) ↦ absurd (ground (arith, found, e))
        | inl calm ↦ elim (Option-cases (passed existing)) [
          | inr (a, e) ↦ absurd (ground (arith, found, calm, e))
          | inl open_ ↦ elim (Option-cases setup) [
            | inl e ↦ absurd (ground (arith, found, calm, open_, e))
            | inr (quiz, e) ↦ (
              quiz,
              e,
              ground (arith, found, calm, open_, e),
              calm,
              open_,
              ground (arith, found, calm, open_, e),
              ground (arith, found, calm, open_, e),
            )
          ]
        ]
      ]

  -- An attempt starts only where the student has no attempt in progress and none that passed, and, with a
  -- cap, fewer attempts than the cap and the granted ones allow: with the new one they are at most as
  -- many.
  pub start_or_resume_quiz-capped {ℓ} :
      {F : Type ℓ} (consented : Bool) (db : QuizTables F) (id now : ℕ) (sub : Submission)
      (student_id : ℕ) (quiz : QuizSetup F) (stored draw : Option SquadDraw) (s : TakenAttempt F)
      (m : ℕ)
      → effective_max_attempts quiz.max_quiz_attempts sub (some student_id) ≡ some m
      → start_or_resume_quiz sh consented db id now (some sub) student_id (some quiz) stored
        ≡ started s draw
      → (all (λ a. is_terminal a.status) (attempts_of db sub student_id) ≡ true)
        × (any (λ a. is_true a.is_passed) (attempts_of db sub student_id) ≡ false)
        × (length (attempts_of db sub student_id) + 1 ≤ m)
  unfolding has_capacity
  start_or_resume_quiz-capped consented db id now sub student_id quiz stored draw s m cap h =
      let (q, same, _, calm, open_, room, _) =
        start-create_attempt consented db id now (some sub) student_id (some quiz) stored draw s sub
          refl h in
      let (counted, ended) = used_count-length (attempts_of db sub student_id) calm in
      (
        ended,
        passed-any (attempts_of db sub student_id) open_,
        ground (arith, same, cap, room, counted),
      )

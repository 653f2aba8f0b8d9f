-- ===== src/Taking/Finish/Outcome.antt =====
-- api/routes/student_quiz.py `_grade_and_finalize` beside services/quiz_grants.py: when an attempt that
-- did not pass fails the submission.
use submissions_checker.Prelude.{
  ℕ, suc, ◌+◌, ◌-◌, ◌≡◌, refl, Bool, true, false, not, ◌&&◌, ◌||◌, none, some, List, [], ◌∷◌, arith,
  count, all, any, filter, length, leb, inl, inr, Option-cases, Bool-cases, if◌then◌else◌, is_true,
  is_some, opt_eq, ◌==◌,
}
use submissions_checker.Submission.{Submission, failed}
use submissions_checker.Quiz.Attempt.{QuizAttempt, is_terminal}
use submissions_checker.Quiz.Grants.{QuizTables, attempts_of, is_exhausted, effective_max_attempts}
use submissions_checker.Quiz.Regrade.{RegradeTables, write_submission}
use submissions_checker.Taking.{TakenAttempt}
use submissions_checker.Taking.Finish.{
  Finished, is_quiz_sent, moved_to, kept, after_fail, counts_as_used, count_used_attempts,
}
use submissions_checker.Taking.Finish.Settled.{transition-quiz_failed}

module _ {ℓ} {F : Type ℓ} where
  -- The rows that `attempts_of` keeps.
  abbrev pub is_mine : ℕ → ℕ → QuizAttempt F → Bool
  is_mine submission_id i a =
      a.submission_id == submission_id
      && (opt_eq a.student_id (some i) || not (is_some a.student_id))

  -- The used attempts and the one that ends now are the student's attempts.
  count_used_attempts-length :
      (submission_id exclude_id i : ℕ) (attempts : List (QuizAttempt F))
      → all (λ a. is_terminal a.status) (filter (is_mine submission_id i) attempts) ≡ true
      → count_used_attempts attempts submission_id exclude_id (some i)
          + count (λ a. is_mine submission_id i a && a.id == exclude_id) attempts
        ≡ length (filter (is_mine submission_id i) attempts)
  unfolding count_used_attempts counts_as_used
  count_used_attempts-length submission_id exclude_id i [] h = omega arith
  count_used_attempts-length submission_id exclude_id i (a ∷ attempts) h =
      ground (arith, count_used_attempts-length submission_id exclude_id i attempts)

  none_in_progress :
      (rows : List (QuizAttempt F))
      → all (λ b. is_terminal b.status) rows ≡ true
      → any (λ b. not (is_terminal b.status)) rows ≡ false
  none_in_progress [] e = refl
  none_in_progress (r ∷ rows) e = ground (arith, none_in_progress rows)

  -- With no row in progress and none that passed, only the number of rows decides.
  is_exhausted-length :
      (attempts : List (QuizAttempt F)) (m n : ℕ)
      → all (λ a. is_terminal a.status) attempts ≡ true
      → any (λ a. is_true a.is_passed) attempts ≡ false
      → suc n ≡ length attempts
      → is_exhausted attempts (some m) ≡ leb m (suc n)
  unfolding is_exhausted
  is_exhausted-length [] m n h k e = absurd (ground arith)
  is_exhausted-length (a ∷ attempts) m n h k e = ground (arith, none_in_progress (a ∷ attempts) h)

  is_exhausted_uncapped : (attempts : List (QuizAttempt F)) → is_exhausted attempts none ≡ false
  unfolding is_exhausted
  is_exhausted_uncapped [] = refl
  is_exhausted_uncapped (a ∷ attempts) = refl

  -- A student's attempt at a submission in QUIZ_SENT ends without a pass, the student has no other
  -- attempt in progress and none that passed, and the row of the attempt stands once in the table.
  -- Then the submission is failed exactly when quiz_grants calls the student's quiz exhausted, which is
  -- when a teacher may grant one more attempt; otherwise nothing moves. With a cap, the attempts left
  -- are the cap less the student's attempts.
  pub after_fail-is_exhausted :
      (tables : QuizTables F) (db : RegradeTables F) (sub : Submission) (s : TakenAttempt F) (i : ℕ)
      → tables.attempts ≡ db.attempts
      → is_quiz_sent sub.status ≡ true
      → s.submission_id ≡ sub.id
      → s.student_id ≡ some i
      → all (λ a. is_terminal a.status) (attempts_of tables sub i) ≡ true
      → any (λ a. is_true a.is_passed) (attempts_of tables sub i) ≡ false
      → count (λ a. is_mine sub.id i a && a.id == s.id) db.attempts ≡ 1
      → (fin : Finished F) × (after_fail db sub s ≡ some fin)
        × (fin.tables ≡ (
            if is_exhausted
              (attempts_of tables sub i)
              (effective_max_attempts s.max_quiz_attempts sub (some i))
            then write_submission (record sub { status = failed }) db
            else db))
        × (fin.attempts_left ≡ elim (effective_max_attempts s.max_quiz_attempts sub (some i)) [
          | none ↦ none
          | some m ↦ some (m - length (attempts_of tables sub i))
        ])
  unfolding after_fail moved_to kept attempts_of
  after_fail-is_exhausted tables db sub s i rows sent at mine ended unpassed once =
      let own : List (QuizAttempt F) = attempts_of tables sub i in
      let used : ℕ = count_used_attempts db.attempts s.submission_id s.id s.student_id in
      let counted : suc used ≡ length own =
        rw (at, mine, rows)
          (ground (
            arith,
            count_used_attempts-length sub.id s.id i db.attempts (rw rows at ended),
            once,
          )) in
      elim (Option-cases (effective_max_attempts s.max_quiz_attempts sub (some i))) [
        | inl n ↦ (
          record { tables = db; effects = []; attempts_left = none },
          rw mine (ground (arith, n)),
          ground (arith, n, is_exhausted_uncapped own),
          ground (arith, n),
        )
        | inr (m, f) ↦
            let exhausted : is_exhausted own (some m) ≡ leb m (suc used) =
              is_exhausted-length own m used ended unpassed counted in
            elim (Bool-cases (leb m (suc used))) [
              | inl full ↦ (
                record {
                  tables = write_submission (record sub { status = failed }) db;
                  effects = [];
                  attempts_left = some 0;
                },
                rw mine (ground (arith, f, full, transition-quiz_failed sub)),
                ground (arith, f, full, exhausted),
                ground (arith, f, full, counted),
              )
              | inr left ↦ (
                record { tables = db; effects = []; attempts_left = some (m - suc used) },
                ground (arith, f, left, mine),
                ground (arith, f, left, exhausted),
                ground (arith, f, left, counted),
              )
            ]
      ]

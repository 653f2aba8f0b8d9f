-- ===== src/Taking/Finish/Settled.antt =====
-- api/routes/student_quiz.py `_grade_and_finalize`: the end of an attempt always comes about, and what
-- the row of the attempt has then.
use submissions_checker.Prelude.{
  ℕ, ◌+◌, ◌≤◌, ◌≡◌, refl, Bool, true, false, ◌&&◌, none, some, List, [], ◌∷◌, ◌++◌, arith, map, inl,
  inr, Option-cases, Bool-cases, if◌then◌else◌, is_true, is_some,
}
use submissions_checker.Submission.{
  Submission, transition, quiz_passed, quiz_passed_teacher, quiz_failed, completed,
  awaiting_teacher_review, failed,
}
use submissions_checker.Quiz.Attempt.{QuizAttemptStatus, is_terminal, violation_fail}
use submissions_checker.Quiz.Scoring.{
  Floats, Scored, load_question_overrides, score_attempt, snapshot_points,
}
use submissions_checker.Quiz.Scoring.Bounds.{Fits, score-le-max_score}
use submissions_checker.Quiz.Scoring.Credit.{Distinct}
use submissions_checker.Quiz.Scoring.Overrides.{apply-Fits}
use submissions_checker.Quiz.Grants.{effective_max_attempts}
use submissions_checker.Quiz.Regrade.{RegradeTables, submission_of}
use submissions_checker.Taking.{TakenAttempt, Question, row, entry}
use submissions_checker.Taking.Clock.{close_open_pause}
use submissions_checker.Taking.Finish.{
  QuizEffect, quiz_result, is_quiz_sent, moved_to, kept, after_pass, after_fail, after_attempt,
  credited, closed_row, close_attempt, write_attempt, grade_and_finalize,
}

-- A snapshot of the pages has the points of every question.
snapshot_points-entry : (qs : List Question) → (m : ℕ) × (snapshot_points (map entry qs) ≡ some m)
unfolding snapshot_points entry
snapshot_points-entry [] = (0, refl)
snapshot_points-entry (q ∷ qs) =
    let (m, e) = snapshot_points-entry qs in (q.points + m, ground (arith, e))

-- The three moves of a submission at QUIZ_SENT are in the table.
pub transition-quiz_passed :
    (sub : Submission)
    → is_quiz_sent sub.status ≡ true
    → transition sub quiz_passed ≡ some (record sub { status = completed })
unfolding transition is_quiz_sent
transition-quiz_passed sub h = ground arith

pub transition-quiz_passed_teacher :
    (sub : Submission)
    → is_quiz_sent sub.status ≡ true
    → transition sub quiz_passed_teacher ≡ some (record sub { status = awaiting_teacher_review })
unfolding transition is_quiz_sent
transition-quiz_passed_teacher sub h = ground arith

pub transition-quiz_failed :
    (sub : Submission)
    → is_quiz_sent sub.status ≡ true
    → transition sub quiz_failed ≡ some (record sub { status = failed })
unfolding transition is_quiz_sent
transition-quiz_failed sub h = ground arith

module _ {ℓ} {F : Type ℓ} where
  after_attempt-returns :
      (db : RegradeTables F) (is_passed : Bool) (s : TakenAttempt F)
      → is_some (after_attempt db is_passed s) ≡ true
  unfolding after_attempt after_pass after_fail kept moved_to
  after_attempt-returns db is_passed s = elim (Option-cases (submission_of db s.submission_id)) [
    | inl n ↦ ground (arith, n)
    | inr (sub, f) ↦ elim (Bool-cases (is_quiz_sent sub.status)) [
      | inr other ↦ ground (arith, f, other)
      | inl sent ↦
          elim (Option-cases (effective_max_attempts s.max_quiz_attempts sub s.student_id)) [
            | inl n ↦ ground (
              arith,
              f,
              sent,
              n,
              transition-quiz_passed sub,
              transition-quiz_passed_teacher sub,
              transition-quiz_failed sub,
            )
            | inr (m, g) ↦ ground (
              arith,
              f,
              sent,
              g,
              transition-quiz_passed sub,
              transition-quiz_passed_teacher sub,
              transition-quiz_failed sub,
            )
          ]
    ]
  ]

  closed_row_lem :
      (now : ℕ) (status : QuizAttemptStatus) (scored : Scored) (s : TakenAttempt F)
      → (let ended = closed_row now status scored s in
          (ended.status ≡ (if scored.force_failed then violation_fail else status))
          × (ended.paused_at ≡ none)
          × (ended.score ≡ some scored.score)
          × (ended.max_score ≡ some scored.max_score)
          × (ended.is_passed ≡ some scored.is_passed)
          × (ended.answers ≡ s.answers)
          × (ended.submission_id ≡ s.submission_id))
  unfolding closed_row close_open_pause
  closed_row_lem now status scored s = elim (Option-cases s.paused_at) [
    | inl n ↦ ground (arith, n)
    | inr (p, e) ↦ ground (arith, e)
  ]

is_terminal_violation : is_terminal violation_fail ≡ true
unfolding is_terminal
is_terminal_violation = refl

module _ (fl : Floats) where
  score_attempt-returns : (s : TakenAttempt fl.F) → is_some (score_attempt fl (row s)) ≡ true
  unfolding score_attempt row
  score_attempt-returns s =
      let (m, e) = snapshot_points-entry s.questions_snapshot in ground (arith, e)

  credited-Fits :
      (db : RegradeTables fl.F) (s : TakenAttempt fl.F)
      → Distinct (row s).questions_snapshot
      → Fits (row s).questions_snapshot s.answers
      → Fits (row (credited fl db s)).questions_snapshot (credited fl db s).answers
  unfolding credited row
  credited-Fits db s distinct fits =
      apply-Fits (row s)
        (load_question_overrides db.overrides s.plugin_config_id s.plugin_config_version) distinct
        fits

  credited-force_fail :
      (db : RegradeTables fl.F) (s : TakenAttempt fl.F)
      → (row (credited fl db s)).force_fail ≡ s.violations.force_fail
  unfolding credited row
  credited-force_fail db s = refl

  close_attempt-returns :
      (now : ℕ) (status : QuizAttemptStatus) (db : RegradeTables fl.F) (s : TakenAttempt fl.F)
      → (scored : Scored) × (score_attempt fl (row (credited fl db s)) ≡ some scored)
        × (close_attempt fl now status db s
            ≡ some (closed_row now status scored (credited fl db s), scored))
  unfolding close_attempt
  close_attempt-returns now status db s =
      elim (Option-cases (score_attempt fl (row (credited fl db s)))) [
        | inl n ↦ absurd (ground (arith, n, score_attempt-returns (credited fl db s)))
        | inr (scored, f) ↦ (scored, f, ground (arith, f))
      ]

  -- An attempt whose snapshot has each question once, and no question answered twice or for more than
  -- it is worth, can always be ended. The attempt is then closed, not paused, with a score that is at
  -- most its maximum; a forced failure has the status that says so and is not passed.
  pub grade_and_finalize-Settled :
      (now : ℕ) (status : QuizAttemptStatus) (db : RegradeTables fl.F) (effects : List QuizEffect)
      (s : TakenAttempt fl.F)
      → Distinct (row s).questions_snapshot
      → Fits (row s).questions_snapshot s.answers
      → is_terminal status ≡ true
      → (ended : TakenAttempt fl.F) × (db' : RegradeTables fl.F) × (effects' : List QuizEffect)
        × (x : ℕ) × (m : ℕ) × (grade_and_finalize fl now status db effects s
            ≡ some (ended, db', effects'))
        × (is_terminal ended.status ≡ true)
        × (ended.paused_at ≡ none)
        × (ended.score ≡ some x)
        × (ended.max_score ≡ some m)
        × (x ≤ m)
        × (ended.status ≡ (if s.violations.force_fail then violation_fail else status))
        × ((s.violations.force_fail && is_true ended.is_passed) ≡ false)
  unfolding grade_and_finalize
  grade_and_finalize-Settled now status db effects s distinct fits terminal =
      let s' : TakenAttempt fl.F = credited fl db s in
      let (scored, e, closes) = close_attempt-returns now status db s in
      let ended : TakenAttempt fl.F = closed_row now status scored s' in
      let after = after_attempt (write_attempt ended db) scored.is_passed ended in
      let columns = closed_row_lem now status scored s' in
      let forced = credited-force_fail db s in
      let bound =
        score-le-max_score fl (row s') {s = scored} (credited-Fits db s distinct fits) e in
      elim (Option-cases after) [
        | inl n ↦ absurd (
            ground
              (arith, n, after_attempt-returns (write_attempt ended db) scored.is_passed ended))
        | inr (fin, f) ↦ (
          ended,
          fin.tables,
          effects ++ fin.effects ++ quiz_result ended.id scored fin.attempts_left ∷ [],
          scored.score,
          scored.max_score,
          ground (arith, closes, f),
          ground (arith, columns, bound, forced, terminal, is_terminal_violation),
          columns.1,
          columns.2,
          columns.3,
          bound.0,
          ground (arith, columns, bound, forced),
          ground (arith, columns, bound, forced),
        )
      ]

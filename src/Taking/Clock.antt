-- ===== src/Taking/Clock.antt =====
-- api/routes/student_quiz.py: the clocks of an attempt, `_effective_now` to
-- `_question_seconds_remaining`, each at a moment `now` of the server's clock, which does not run
-- backwards. A difference that Python takes is written as a sum on the other side of the test.
pub mod Frozen
use submissions_checker.Prelude.{
  ℕ, zero, suc, ◌+◌, ◌-◌, ◌*◌, ◌/◌, Bool, true, false, Option, none, some, List, [], ◌∷◌, ltb, ◌==◌,
  if◌then◌else◌, or_zero,
}
use submissions_checker.Taking.{TakenAttempt, Question, second}

unfoldable pub question_at : ℕ → List Question → Option Question
question_at i [] = none
question_at zero (q ∷ qs) = some q
question_at (suc i) (q ∷ qs) = question_at i qs

-- `max(0, ceil(x))` for a duration of microseconds.
unfoldable pub ceil_seconds : ℕ → ℕ
ceil_seconds x = (x + (second - 1)) / second

module _ {ℓ} {F : Type ℓ} where
  -- In microseconds.
  unfoldable pub open_pause_seconds : ℕ → TakenAttempt F → ℕ
  open_pause_seconds now s = elim s.paused_at [ none ↦ 0 | some p ↦ now - p ]

  -- `now - (now - paused_at)`
  unfoldable pub effective_now : ℕ → TakenAttempt F → ℕ
  effective_now now s = elim s.paused_at [ none ↦ now | some p ↦ p ]

  unfoldable pub close_open_pause : ℕ → TakenAttempt F → TakenAttempt F × ℕ
  unfolding open_pause_seconds
  close_open_pause now s = elim s.paused_at [
    | none ↦ (s, 0)
    | some p ↦
        let elapsed = open_pause_seconds now s / second in
        let anchor : Option ℕ = elim s.question_started_at [
          | none ↦ none
          | some q ↦ some (q + elapsed * second)
        ] in
        (
          record s {
            paused_seconds = s.paused_seconds + elapsed;
            question_started_at = anchor;
            paused_at = none;
          },
          elapsed,
        )
  ]

  unfoldable pub time_penalty : TakenAttempt F → ℕ
  time_penalty s = or_zero s.violations.time_penalty_seconds

  -- `_elapsed_seconds(attempt) > limit * 60 - penalty`, where the time consumed is
  -- `effective_now - started_at - paused_seconds`.
  unfoldable pub is_timed_out : ℕ → TakenAttempt F → Bool
  unfolding effective_now time_penalty
  is_timed_out now s =
      if s.time_limit_minutes == 0
      then false
      else ltb ((s.time_limit_minutes * 60 + s.paused_seconds) * second + s.started_at)
          (effective_now now s + time_penalty s * second)

  unfoldable pub seconds_remaining : ℕ → TakenAttempt F → Option ℕ
  unfolding effective_now time_penalty
  seconds_remaining now s =
      if s.time_limit_minutes == 0
      then none
      else some (
          ((s.time_limit_minutes * 60 + s.paused_seconds) * second
            + s.started_at
            - (effective_now now s + time_penalty s * second))
          / second)

  unfoldable pub current_question : TakenAttempt F → Option Question
  unfolding question_at
  current_question s = question_at s.current_index s.questions_snapshot

  unfoldable pub question_seconds_remaining : ℕ → TakenAttempt F → Option ℕ
  unfolding current_question effective_now ceil_seconds
  question_seconds_remaining now s = elim (current_question s) [
    | none ↦ none
    | some q ↦ elim (or_zero q.time_limit_seconds) [
      | zero ↦ none
      | suc l ↦ elim s.question_started_at [
        | none ↦ none
        | some started ↦ some (ceil_seconds (suc l * second + started - effective_now now s))
      ]
    ]
  ]

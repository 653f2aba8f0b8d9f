-- ===== src/Taking/Clock/Frozen.antt =====
-- api/routes/student_quiz.py: what a pause for an air raid does to the clocks of an attempt.
use submissions_checker.Prelude.{ℕ, ◌+◌, ◌-◌, ◌%◌, ◌≤◌, ◌<◌, ◌≡◌, none, some, arith}
use submissions_checker.Taking.{TakenAttempt, second}
use submissions_checker.Taking.Clock.{
  open_pause_seconds, effective_now, time_penalty, close_open_pause, is_timed_out,
  seconds_remaining, current_question, question_seconds_remaining,
}

-- The fraction of a second of the pause that `int()` drops.
abbrev pub dropped : ℕ → ℕ → ℕ
dropped p now = (now - p) % second

module _ {ℓ} {F : Type ℓ} where
  -- The attempt as if it had never been paused.
  abbrev pub unpaused : TakenAttempt F → TakenAttempt F
  unpaused s = record s { paused_at = none }

  frozen-is_timed_out :
      (s : TakenAttempt F) (p now d : ℕ)
      → s.paused_at ≡ some p
      → p ≤ now
      → is_timed_out (now + d) (close_open_pause now s).0
        ≡ is_timed_out (p + dropped p now + d) (unpaused s)
  unfolding is_timed_out close_open_pause open_pause_seconds effective_now time_penalty
  frozen-is_timed_out s p now d e h = rw e (ground arith)

  frozen-seconds_remaining :
      (s : TakenAttempt F) (p now d : ℕ)
      → s.paused_at ≡ some p
      → p ≤ now
      → seconds_remaining (now + d) (close_open_pause now s).0
        ≡ seconds_remaining (p + dropped p now + d) (unpaused s)
  unfolding seconds_remaining close_open_pause open_pause_seconds effective_now time_penalty
  frozen-seconds_remaining s p now d e h = rw e (ground arith)

  frozen-question_seconds_remaining :
      (s : TakenAttempt F) (p now d : ℕ)
      → s.paused_at ≡ some p
      → p ≤ now
      → question_seconds_remaining (now + d) (close_open_pause now s).0
        ≡ question_seconds_remaining (p + dropped p now + d) (unpaused s)
  unfolding question_seconds_remaining close_open_pause open_pause_seconds effective_now
      current_question
  frozen-question_seconds_remaining s p now d e h = rw e (ground arith)

  -- After a pause that ended at `now`, every clock of the attempt reads, `d` later, what it would
  -- have read `d` after the pause began, had there been no pause: whether the attempt is timed out,
  -- the seconds it has left and the seconds its question has left. Only the fraction of a second of
  -- the pause's length is lost to the student.
  pub close_open_pause-frozen :
      (s : TakenAttempt F) (p now d : ℕ)
      → s.paused_at ≡ some p
      → p ≤ now
      → (is_timed_out (now + d) (close_open_pause now s).0
          ≡ is_timed_out (p + dropped p now + d) (unpaused s))
        × (seconds_remaining (now + d) (close_open_pause now s).0
            ≡ seconds_remaining (p + dropped p now + d) (unpaused s))
        × (question_seconds_remaining (now + d) (close_open_pause now s).0
            ≡ question_seconds_remaining (p + dropped p now + d) (unpaused s))
        × (dropped p now < second)
  close_open_pause-frozen s p now d e h = (
    frozen-is_timed_out s p now d e h,
    frozen-seconds_remaining s p now d e h,
    frozen-question_seconds_remaining s p now d e h,
    omega arith,
  )

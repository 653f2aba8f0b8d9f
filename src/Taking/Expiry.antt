-- ===== src/Taking/Expiry.antt =====
-- api/routes/student_quiz.py `_advance_expired`: the questions of a stepped attempt whose window has
-- closed while the student was away.
pub mod Windows
use submissions_checker.Prelude.{
  ℕ, zero, suc, ◌+◌, ◌*◌, true, false, Option, none, some, List, [], ◌∷◌, ◌++◌, leb, ◌==◌,
  if◌then◌else◌, or_zero,
}
use submissions_checker.Quiz.Attempt.{QuizAnswer}
use submissions_checker.Taking.{TakenAttempt, Question, second}

abbrev pub question_grace_seconds : ℕ
question_grace_seconds = 5

-- `questions[i:]`
unfoldable pub drop : ℕ → List Question → List Question
drop zero qs = qs
drop (suc i) [] = []
drop (suc i) (q ∷ qs) = drop i qs

unfoldable pub timed_out_answer : ℕ → Question → QuizAnswer
timed_out_answer attempt_id q = record {
  attempt_id = attempt_id;
  question_id = q.id;
  is_correct = some false;
  points_earned = some 0;
  timed_out = true;
}

module _ {ℓ} {F : Type ℓ} where
  -- `_record_timed_out` on the question that the loop has at hand.
  unfoldable pub record_timed_out : Question → TakenAttempt F → TakenAttempt F
  unfolding timed_out_answer
  record_timed_out q s = record s { answers = s.answers ++ timed_out_answer s.id q ∷ [] }

  -- The rest of a round that burns: the next window starts when this one ended.
  unfoldable pub burn : Question → ℕ → ℕ → TakenAttempt F → TakenAttempt F
  unfolding record_timed_out
  burn q limit started s = record (record_timed_out q s) {
    current_index = s.current_index + 1;
    question_started_at = some (started + limit * second);
  }

  -- The loop, over the questions from the current one on. `elapsed <= limit + grace` is written as a
  -- sum.
  unfoldable pub advance_loop : ℕ → List Question → TakenAttempt F → TakenAttempt F × ℕ
  unfolding burn
  advance_loop now [] s = (s, 0)
  advance_loop now (q ∷ qs) s =
      let limit = or_zero q.time_limit_seconds in
      if limit == 0 then (s, 0) else elim s.question_started_at [
        | none ↦ (record s { question_started_at = some now }, 0)
        | some started ↦
            let later = advance_loop now qs (burn q limit started s) in
            if leb now (started + (limit + question_grace_seconds) * second)
            then (s, 0)
            else (later.0, suc later.1)
      ]

  unfoldable pub advance_expired : ℕ → TakenAttempt F → TakenAttempt F × ℕ
  unfolding advance_loop drop
  advance_expired now s = elim s.paused_at [
    | some _ ↦ (s, 0)
    | none ↦ advance_loop now (drop s.current_index s.questions_snapshot) s
  ]

-- ===== src/Quiz/Scoring/Bounds.antt =====
-- The bound that the database puts on quiz_attempts (ck_quiz_attempts_score, in
-- db/models/quiz_template.py): a score never exceeds the score that was possible.
use submissions_checker.Prelude.{
  ◌&&◌, ℕ, ◌+◌, ◌≤◌, ◌≡◌, refl, false, Option, none, some, List, [], ◌∷◌, arith, if◌then◌else◌,
  or_zero, opt_eq, Option-cases, inl, inr,
}
use submissions_checker.Quiz.Attempt.{QuestionSnapshot, QuizAnswer, QuizAttempt}
use submissions_checker.Quiz.Scoring.{
  Floats, has_answer, answer_points, snapshot_points, Scored, score_attempt,
}

-- What the snapshot offers for a question: the points of its first entry, and 0 if it has none.
unfoldable pub worth : List QuestionSnapshot → ℕ → ℕ
worth [] i = 0
worth (q ∷ qs) i = if opt_eq q.id (some i) then or_zero q.points else worth qs i

-- No question has two rows, and no row earns more than its question is worth.
abbrev pub Fits : List QuestionSnapshot → List QuizAnswer → Type 0
Fits qs [] = Unit
Fits qs (a ∷ rest) =
    (has_answer a.question_id rest ≡ false)
    × (or_zero a.points_earned ≤ worth qs a.question_id)
    × Fits qs rest

-- The rows of all questions but one.
without : Option ℕ → List QuizAnswer → List QuizAnswer
without i [] = []
without i (a ∷ rest) =
    let others = without i rest in if opt_eq i (some a.question_id) then others else a ∷ others

has_answer-without :
    (j : ℕ) (i : Option ℕ) (rows : List QuizAnswer)
    → has_answer j rows ≡ false
    → has_answer j (without i rows) ≡ false
unfolding has_answer without
has_answer-without j i [] h = refl
has_answer-without j i (a ∷ rest) h = ground (arith, has_answer-without j i rest)

without-Fits :
    (q : QuestionSnapshot) (qs : List QuestionSnapshot) (rows : List QuizAnswer)
    → Fits (q ∷ qs) rows
    → Fits qs (without q.id rows)
unfolding without worth
without-Fits q qs [] h = tt
without-Fits q qs (a ∷ rest) h =
    ground (arith, without-Fits q qs rest h.2, has_answer-without a.question_id q.id rest h.0)

without-absent :
    (i : ℕ) (rows : List QuizAnswer) → has_answer i rows ≡ false → without (some i) rows ≡ rows
unfolding without has_answer
without-absent i [] h = refl
without-absent i (a ∷ rest) h = ground (arith, without-absent i rest)

without-none : (rows : List QuizAnswer) → without none rows ≡ rows
unfolding without
without-none [] = refl
without-none (a ∷ rest) = ground (arith, without-none rest)

points-without :
    (q : QuestionSnapshot) (qs : List QuestionSnapshot) (rows : List QuizAnswer)
    → Fits (q ∷ qs) rows
    → answer_points rows ≤ or_zero q.points + answer_points (without q.id rows)
unfolding answer_points without worth
points-without q qs [] h = ground arith
points-without q qs (a ∷ rest) h =
    ground (arith, points-without q qs rest h.2, without-absent a.question_id rest h.0)

pub answer_points_bound :
    (qs : List QuestionSnapshot) (rows : List QuizAnswer) {m : ℕ}
    → Fits qs rows
    → snapshot_points qs ≡ some m
    → answer_points rows ≤ m
unfolding snapshot_points worth answer_points
answer_points_bound [] [] h e = ground arith
answer_points_bound [] (a ∷ rest) h e = ground (arith, answer_points_bound [] rest {m = 0} h.2 refl)
answer_points_bound (q ∷ qs) rows h e = elim (Option-cases (snapshot_points qs)) [
  | inl missing ↦ absurd (ground arith)
  | inr (r, er) ↦ ground (
    arith,
    points-without q qs rows h,
    answer_points_bound qs (without q.id rows) {m = r} (without-Fits q qs rows h) er,
  )
]

-- When no question has two rows and no row earns more than its question is worth, the score of the
-- attempt is at most its maximum, and a forced failure is not passed.
pub score-le-max_score :
    (fl : Floats) (attempt : QuizAttempt fl.F) {s : Scored}
    → Fits attempt.questions_snapshot attempt.answers
    → score_attempt fl attempt ≡ some s
    → (s.score ≤ s.max_score)
      × (s.force_failed ≡ attempt.force_fail)
      × ((attempt.force_fail && s.is_passed) ≡ false)
unfolding score_attempt
score-le-max_score fl attempt h e =
    elim (Option-cases (snapshot_points attempt.questions_snapshot)) [
      | inl missing ↦ absurd (ground arith)
      | inr (m, em) ↦
          ground
            (arith, answer_points_bound attempt.questions_snapshot attempt.answers {m = m} h em)
    ]

-- ===== src/Quiz/Scoring/Overrides.antt =====
-- What apply_question_overrides of services/quiz_scoring.py does to an attempt as a whole.
use submissions_checker.Prelude.{
  false, not, ℕ, ◌≤◌, ◌≡◌, refl, ◌∙◌, sym, ap, true, Option, some, List, [], ◌∷◌, arith, ◌&&◌,
  if◌then◌else◌, Option-cases, inl, inr, contains,
}
use mathlib.Core.List.{append-nil}
use submissions_checker.Quiz.Attempt.{QuizAttempt}
use submissions_checker.Quiz.Scoring.{
  Floats, has_answer, apply_question_overrides, answer_points, snapshot_points, Scored,
  score_attempt, scored, passes, threshold,
}
use submissions_checker.Quiz.Scoring.Bounds.{worth, Fits, answer_points_bound}
use submissions_checker.Quiz.Scoring.Credit.{credit_snapshot, in_snapshot, Distinct, apply_loop-eq}
use submissions_checker.Quiz.Scoring.Upsert.{points_for}
use submissions_checker.Quiz.Scoring.Fold.{
  credit_snapshot_empty, Distinct-Priced, credit_snapshot-Fits, answer_points-credit_snapshot,
  points_for-credit_snapshot, credit_snapshot_settled, credit_snapshot-AllSettled,
}

module _ {ℓ} {F : Type ℓ} where
  -- The rows afterwards are the fold over the snapshot.
  pub answers-apply :
      (attempt : QuizAttempt F) (ids : List ℕ)
      → Distinct attempt.questions_snapshot
      → (apply_question_overrides attempt ids).0.answers
        ≡ credit_snapshot attempt.id ids attempt.questions_snapshot attempt.answers
  unfolding apply_question_overrides
  answers-apply attempt [] d =
      sym (credit_snapshot_empty attempt.id attempt.questions_snapshot attempt.answers)
  answers-apply attempt (i ∷ ids) d =
      apply_loop-eq attempt.id (i ∷ ids) attempt.questions_snapshot attempt.answers [] 0 d
        (λ j h. unfold has_answer in refl)
      ∙ ap (credit_snapshot attempt.id (i ∷ ids) attempt.questions_snapshot)
          (append-nil attempt.answers)

  -- Nothing but the rows changes.
  pub apply_frame :
      (attempt : QuizAttempt F) (ids : List ℕ)
      → (apply_question_overrides attempt ids).0
        ≡ record attempt { answers = (apply_question_overrides attempt ids).0.answers }
  unfolding apply_question_overrides
  apply_frame attempt [] = refl
  apply_frame attempt (i ∷ ids) = refl

  pub apply_eq :
      (attempt : QuizAttempt F) (ids : List ℕ)
      → Distinct attempt.questions_snapshot
      → (apply_question_overrides attempt ids).0 ≡ record attempt {
        answers = credit_snapshot attempt.id ids attempt.questions_snapshot attempt.answers;
      }
  apply_eq attempt ids d =
      apply_frame attempt ids
      ∙ ap {B = QuizAttempt F} (λ r. record attempt { answers = r }) (answers-apply attempt ids d)

  -- What each question of the attempt earns after the overrides: an overridden question of the
  -- snapshot earns the points that the snapshot gives it, answered or not, and every other question
  -- earns what it did. The snapshot holds each question once, and the rows fit it.
  pub points_for-apply :
      (attempt : QuizAttempt F) (ids : List ℕ) (j : ℕ)
      → Distinct attempt.questions_snapshot
      → Fits attempt.questions_snapshot attempt.answers
      → points_for j (apply_question_overrides attempt ids).0.answers ≡ (
          if contains j ids && in_snapshot j attempt.questions_snapshot
          then worth attempt.questions_snapshot j
          else points_for j attempt.answers)
  points_for-apply attempt ids j d f = rw (answers-apply attempt ids d) (
      points_for-credit_snapshot j attempt.id ids attempt.questions_snapshot
        attempt.questions_snapshot attempt.answers (Distinct-Priced attempt.questions_snapshot d) d
        f)

  -- Where the snapshot holds each question once and the rows fit it, the rows with the overrides
  -- fit it too: no question has two rows or earns more than its worth.
  pub apply-Fits :
      (attempt : QuizAttempt F) (ids : List ℕ)
      → Distinct attempt.questions_snapshot
      → Fits attempt.questions_snapshot attempt.answers
      → Fits attempt.questions_snapshot (apply_question_overrides attempt ids).0.answers
  apply-Fits attempt ids d f = rw (answers-apply attempt ids d) (
      credit_snapshot-Fits attempt.questions_snapshot attempt.id ids attempt.questions_snapshot
        attempt.answers (Distinct-Priced attempt.questions_snapshot d) f)

  -- Where the snapshot holds each question once, applying the same overrides twice is the same as
  -- applying them once.
  pub apply_idem :
      (attempt : QuizAttempt F) (ids : List ℕ)
      → Distinct attempt.questions_snapshot
      → let once = (apply_question_overrides attempt ids).0 in
        (apply_question_overrides once ids).0 ≡ once
  apply_idem attempt ids d =
      let rows = credit_snapshot attempt.id ids attempt.questions_snapshot attempt.answers in
      rw (apply_eq attempt ids d) (
        apply_eq (record attempt { answers = rows }) ids d
        ∙ ap {B = QuizAttempt F} (λ r. record attempt { answers = r })
            (credit_snapshot_settled attempt.id ids attempt.questions_snapshot rows (
              credit_snapshot-AllSettled attempt.id ids attempt.questions_snapshot attempt.answers
                d)))

passes_mono :
    (fl : Floats) (t : Option fl.F) (a b m : ℕ)
    → a ≤ b
    → passes fl t a m ≡ true
    → passes fl t b m ≡ true
unfolding passes
passes_mono fl t a b m h p = ground (arith, fl.div_mono (threshold fl t) a b m)

-- Where the snapshot holds each question once, the rows fit it and the attempt can be scored,
-- overrides never cost it anything: it can be scored, its maximum stays, its score does not fall
-- and is at most the maximum, and if it passed it still passes.
pub score-apply :
    (fl : Floats) (attempt : QuizAttempt fl.F) (ids : List ℕ) {s : Scored}
    → Distinct attempt.questions_snapshot
    → Fits attempt.questions_snapshot attempt.answers
    → score_attempt fl attempt ≡ some s
    → (t : Scored) × (score_attempt fl (apply_question_overrides attempt ids).0 ≡ some t)
      × (t.max_score ≡ s.max_score)
      × (s.score ≤ t.score)
      × (t.score ≤ t.max_score)
      × ((s.is_passed && not t.is_passed) ≡ false)
unfolding score_attempt
score-apply fl attempt ids {s} d f e =
    elim (Option-cases (snapshot_points attempt.questions_snapshot)) [
      | inl missing ↦ absurd (ground arith)
      | inr (m, em) ↦
          let priced = Distinct-Priced attempt.questions_snapshot d in
          let rows = credit_snapshot attempt.id ids attempt.questions_snapshot attempt.answers in
          let more =
            answer_points-credit_snapshot attempt.questions_snapshot attempt.id ids
              attempt.questions_snapshot attempt.answers priced f in
          let fits =
            credit_snapshot-Fits attempt.questions_snapshot attempt.id ids
              attempt.questions_snapshot attempt.answers priced f in
          let bound = answer_points_bound attempt.questions_snapshot rows {m = m} fits em in
          rw (apply_eq attempt ids d) (
            scored fl (record attempt { answers = rows }) m,
            rw (em, score_attempt),
            ground arith,
            ground (arith, more),
            ground (arith, bound),
            ground (
              arith,
              passes_mono fl attempt.config_snapshot.pass_threshold_pct
                  (answer_points attempt.answers) (answer_points rows) m more,
            ),
          )
    ]

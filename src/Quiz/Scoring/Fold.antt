-- ===== src/Quiz/Scoring/Fold.antt =====
-- Laws of the whole loop of apply_question_overrides (services/quiz_scoring.py), in its form as a fold.
use submissions_checker.Prelude.{
  ℕ, ◌≤◌, ◌≡◌, refl, ◌∙◌, ap, true, false, Option, none, some, List, [], ◌∷◌, arith, ◌&&◌,
  if◌then◌else◌, or_zero, Bool-cases, Option-cases, inl, inr, contains,
}
use submissions_checker.Quiz.Attempt.{QuestionSnapshot, QuizAnswer}
use submissions_checker.Quiz.Scoring.{answer_points}
use submissions_checker.Quiz.Scoring.Bounds.{worth, Fits}
use submissions_checker.Quiz.Scoring.Credit.{upsert, credit_snapshot, in_snapshot, NotIn, Distinct}
use submissions_checker.Quiz.Scoring.Upsert.{
  Fits-Unique, points_for, upsert-Fits, points_for-upsert, answer_points-upsert, IsSettled,
  upsert-IsSettled, upsert-IsSettled_ne,
}

pub credit_snapshot_empty :
    (aid : ℕ) (qs : List QuestionSnapshot) (rows : List QuizAnswer)
    → credit_snapshot aid [] qs rows ≡ rows
unfolding credit_snapshot
credit_snapshot_empty aid [] rows = refl
credit_snapshot_empty aid (q ∷ qs) rows = ground (arith, credit_snapshot_empty aid qs rows)

-- Each entry is worth what the whole snapshot says of its question.
pub Priced : List QuestionSnapshot → List QuestionSnapshot → Type 0
Priced all [] = Unit
Priced all (q ∷ qs) = ((i : ℕ) → q.id ≡ some i → worth all i ≡ or_zero q.points) × Priced all qs

NotIn-absent :
    (o : Option ℕ) (qs : List QuestionSnapshot) (i : ℕ)
    → NotIn o qs
    → o ≡ some i
    → in_snapshot i qs ≡ false
NotIn-absent none qs i n e = cc
NotIn-absent (some k) qs i n e = ground arith

Priced-cons :
    (all : List QuestionSnapshot) (q : QuestionSnapshot) (qs : List QuestionSnapshot)
    → ((i : ℕ) → q.id ≡ some i → in_snapshot i qs ≡ false)
    → Priced all qs
    → Priced (q ∷ all) qs
unfolding Priced worth in_snapshot
Priced-cons all q [] n h = tt
Priced-cons all q (r ∷ qs) n h =
    (λ i e. ground (arith, h.0 i e, n i), Priced-cons all q qs (λ i e. ground (arith, n i e)) h.1)

pub Distinct-Priced : (qs : List QuestionSnapshot) → Distinct qs → Priced qs qs
unfolding Priced worth
Distinct-Priced [] d = tt
Distinct-Priced (q ∷ qs) d = (
  λ i e. ground arith,
  Priced-cons qs q qs (λ i e. NotIn-absent q.id qs i d.0 e) (Distinct-Priced qs d.1),
)

pub credit_snapshot-Fits :
    (all : List QuestionSnapshot) (aid : ℕ) (ids : List ℕ) (qs : List QuestionSnapshot)
    (rows : List QuizAnswer)
    → Priced all qs
    → Fits all rows
    → Fits all (credit_snapshot aid ids qs rows)
unfolding credit_snapshot Priced
credit_snapshot-Fits all aid ids [] rows p f = f
credit_snapshot-Fits all aid ids (q ∷ qs) rows p f = elim (Option-cases q.id) [
  | inl e ↦ rw e (credit_snapshot-Fits all aid ids qs rows p.1 f)
  | inr (i, e) ↦ rw e (
      credit_snapshot-Fits all aid ids qs
        (if contains i ids then upsert aid i (or_zero q.points) rows else rows) p.1
        (ground (arith, upsert-Fits all aid i (or_zero q.points) rows, p.0 i e)))
]

pub answer_points-credit_snapshot :
    (all : List QuestionSnapshot) (aid : ℕ) (ids : List ℕ) (qs : List QuestionSnapshot)
    (rows : List QuizAnswer)
    → Priced all qs
    → Fits all rows
    → answer_points rows ≤ answer_points (credit_snapshot aid ids qs rows)
unfolding credit_snapshot Priced
answer_points-credit_snapshot all aid ids [] rows p f = omega arith
answer_points-credit_snapshot all aid ids (q ∷ qs) rows p f = elim (Option-cases q.id) [
  | inl e ↦ rw e (answer_points-credit_snapshot all aid ids qs rows p.1 f)
  | inr (i, e) ↦ elim (Bool-cases (contains i ids)) [
    | inl over ↦
        rw (e, over)
          (omega (
            arith,
            p.0 i e,
            answer_points-upsert all aid i (or_zero q.points) rows (omega (arith, p.0 i e)) f,
            answer_points-credit_snapshot all aid ids qs (upsert aid i (or_zero q.points) rows) p.1
                (upsert-Fits all aid i (or_zero q.points) rows (omega (arith, p.0 i e)) f),
          ))
    | inr plain ↦ rw (e, plain) (answer_points-credit_snapshot all aid ids qs rows p.1 f)
  ]
]

pub points_for-credit_snapshot :
    (j aid : ℕ) (ids : List ℕ) (all qs : List QuestionSnapshot) (rows : List QuizAnswer)
    → Priced all qs
    → Distinct qs
    → Fits all rows
    → points_for j (credit_snapshot aid ids qs rows)
      ≡ (if contains j ids && in_snapshot j qs then worth all j else points_for j rows)
unfolding credit_snapshot Priced in_snapshot
points_for-credit_snapshot j aid ids all [] rows p d f = ground arith
points_for-credit_snapshot j aid ids all (q ∷ qs) rows p d f = elim (Option-cases q.id) [
  | inl e ↦ ground (arith, points_for-credit_snapshot j aid ids all qs rows p.1 d.1 f)
  | inr (i, e) ↦ elim (Bool-cases (contains i ids)) [
    | inl over ↦ ground (
      arith,
      p.0 i e,
      NotIn-absent q.id qs i d.0 e,
      points_for-upsert j aid i (or_zero q.points) rows (Fits-Unique all rows f),
      points_for-credit_snapshot j aid ids all qs (upsert aid i (or_zero q.points) rows) p.1 d.1
          (upsert-Fits all aid i (or_zero q.points) rows (omega (arith, p.0 i e)) f),
    )
    | inr plain ↦ ground (arith, points_for-credit_snapshot j aid ids all qs rows p.1 d.1 f)
  ]
]

-- Every overridden question of the list holds its credit already.
pub AllSettled : List ℕ → List QuestionSnapshot → List QuizAnswer → Type 0
AllSettled ids [] rows = Unit
AllSettled ids (q ∷ qs) rows =
    ((i : ℕ) → q.id ≡ some i → contains i ids ≡ true → IsSettled i (or_zero q.points) rows)
    × AllSettled ids qs rows

upsert_settled :
    (aid i p : ℕ) (rows : List QuizAnswer) → IsSettled i p rows → upsert aid i p rows ≡ rows
unfolding upsert
upsert_settled aid i p rows s = rw s.present s.fixed

pub credit_snapshot_settled :
    (aid : ℕ) (ids : List ℕ) (qs : List QuestionSnapshot) (rows : List QuizAnswer)
    → AllSettled ids qs rows
    → credit_snapshot aid ids qs rows ≡ rows
unfolding credit_snapshot AllSettled
credit_snapshot_settled aid ids [] rows s = refl
credit_snapshot_settled aid ids (q ∷ qs) rows s = elim (Option-cases q.id) [
  | inl e ↦ rw e (credit_snapshot_settled aid ids qs rows s.1)
  | inr (i, e) ↦ elim (Bool-cases (contains i ids)) [
    | inl over ↦
        rw (e, over)
          (ap (credit_snapshot aid ids qs)
              (upsert_settled aid i (or_zero q.points) rows (s.0 i e over))
            ∙ credit_snapshot_settled aid ids qs rows s.1)
    | inr plain ↦ rw (e, plain) (credit_snapshot_settled aid ids qs rows s.1)
  ]
]

-- A settled question stays settled while others are credited.
credit_snapshot-IsSettled :
    (aid i p : ℕ) (ids : List ℕ) (qs : List QuestionSnapshot) (rows : List QuizAnswer)
    → in_snapshot i qs ≡ false
    → IsSettled i p rows
    → IsSettled i p (credit_snapshot aid ids qs rows)
unfolding credit_snapshot in_snapshot
credit_snapshot-IsSettled aid i p ids [] rows n s = s
credit_snapshot-IsSettled aid i p ids (q ∷ qs) rows n s = elim (Option-cases q.id) [
  | inl e ↦ rw e (credit_snapshot-IsSettled aid i p ids qs rows (ground arith) s)
  | inr (j, e) ↦ elim (Bool-cases (contains j ids)) [
    | inl over ↦
        rw (e, over)
          (credit_snapshot-IsSettled aid i p ids qs (upsert aid j (or_zero q.points) rows)
            (ground arith) (upsert-IsSettled_ne aid i j p (or_zero q.points) rows (ground arith) s))
    | inr plain ↦ rw (e, plain) (credit_snapshot-IsSettled aid i p ids qs rows (ground arith) s)
  ]
]

pub credit_snapshot-AllSettled :
    (aid : ℕ) (ids : List ℕ) (qs : List QuestionSnapshot) (rows : List QuizAnswer)
    → Distinct qs
    → AllSettled ids qs (credit_snapshot aid ids qs rows)
unfolding credit_snapshot AllSettled
credit_snapshot-AllSettled aid ids [] rows d = tt
credit_snapshot-AllSettled aid ids (q ∷ qs) rows d = (
  λ i e over.
      rw (e, over)
        (credit_snapshot-IsSettled aid i (or_zero q.points) ids qs
          (upsert aid i (or_zero q.points) rows) (NotIn-absent q.id qs i d.0 e)
          (upsert-IsSettled aid i (or_zero q.points) rows)),
  elim (Option-cases q.id) [
    | inl e ↦ rw e (credit_snapshot-AllSettled aid ids qs rows d.1)
    | inr (i, e) ↦ rw e (
        credit_snapshot-AllSettled aid ids qs
          (if contains i ids then upsert aid i (or_zero q.points) rows else rows) d.1)
  ],
)

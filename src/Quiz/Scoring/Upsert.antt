-- ===== src/Quiz/Scoring/Upsert.antt =====
-- Laws of one credit, as services/quiz_scoring.py gives it: a row is updated or appended.
use submissions_checker.Prelude.{
  ℕ, ◌+◌, ◌≤◌, ◌≡◌, refl, ◌≢◌, ◌∙◌, ap, true, false, List, [], ◌∷◌, ◌++◌, arith, ◌==◌,
  if◌then◌else◌, or_zero, Bool-cases, inl, inr,
}
use submissions_checker.Quiz.Attempt.{QuestionSnapshot, QuizAnswer}
use submissions_checker.Quiz.Scoring.{has_answer, credit_answer, new_answer, answer_points}
use submissions_checker.Quiz.Scoring.Bounds.{worth, Fits}
use submissions_checker.Quiz.Scoring.Answers.{
  has_answer-append, has_answer-credit_answer, credit_answer-Fits, credit_answer-credit_answer,
  credit_answer-append,
}
use submissions_checker.Quiz.Scoring.Credit.{upsert}

-- No question has two rows.
abbrev pub Unique : List QuizAnswer → Type 0
Unique [] = Unit
Unique (a ∷ rest) = (has_answer a.question_id rest ≡ false) × Unique rest

pub Fits-Unique : (qs : List QuestionSnapshot) (rows : List QuizAnswer) → Fits qs rows → Unique rows
Fits-Unique qs [] h = tt
Fits-Unique qs (a ∷ rest) h = (h.0, Fits-Unique qs rest h.2)

-- What all the rows of one question earn together.
unfoldable pub points_for : ℕ → List QuizAnswer → ℕ
points_for i [] = 0
points_for i (a ∷ rest) =
    (if a.question_id == i then or_zero a.points_earned else 0) + points_for i rest

Fits-append :
    (qs : List QuestionSnapshot) (aid i p : ℕ) (rows : List QuizAnswer)
    → p ≤ worth qs i
    → has_answer i rows ≡ false
    → Fits qs rows
    → Fits qs (rows ++ new_answer aid i p ∷ [])
unfolding has_answer new_answer
Fits-append qs aid i p [] w h f = ground arith
Fits-append qs aid i p (a ∷ rest) w h f = ground (
  arith,
  Fits-append qs aid i p rest w,
  has_answer-append a.question_id rest (new_answer aid i p ∷ []),
)

pub upsert-Fits :
    (qs : List QuestionSnapshot) (aid i p : ℕ) (rows : List QuizAnswer)
    → p ≤ worth qs i
    → Fits qs rows
    → Fits qs (upsert aid i p rows)
unfolding upsert
upsert-Fits qs aid i p rows w f = elim (Bool-cases (has_answer i rows)) [
  | inl present ↦ rw present (credit_answer-Fits qs i p rows w f)
  | inr absent ↦ rw absent (Fits-append qs aid i p rows w absent f)
]

pub has_answer-upsert :
    (j aid i p : ℕ) (rows : List QuizAnswer)
    → has_answer j (upsert aid i p rows) ≡ (if i == j then true else has_answer j rows)
unfolding upsert has_answer new_answer
has_answer-upsert j aid i p rows =
    ground (
      arith,
      has_answer-append j rows (new_answer aid i p ∷ []),
      has_answer-credit_answer j i p rows,
    )

points_for_absent :
    (i : ℕ) (rows : List QuizAnswer) → has_answer i rows ≡ false → points_for i rows ≡ 0
unfolding has_answer points_for
points_for_absent i [] h = refl
points_for_absent i (a ∷ rest) h = ground (arith, points_for_absent i rest)

points_for-credit_answer :
    (j i p : ℕ) (rows : List QuizAnswer)
    → Unique rows
    → has_answer i rows ≡ true
    → points_for j (credit_answer i p rows) ≡ (if i == j then p else points_for j rows)
unfolding has_answer points_for credit_answer
points_for-credit_answer j i p [] u h = cc
points_for-credit_answer j i p (a ∷ rest) u h =
    ground (arith, points_for-credit_answer j i p rest u.1, points_for_absent i rest)

points_for-append :
    (j : ℕ) (xs ys : List QuizAnswer) → points_for j (xs ++ ys) ≡ points_for j xs + points_for j ys
unfolding points_for
points_for-append j [] ys = omega arith
points_for-append j (a ∷ rest) ys = omega (arith, points_for-append j rest ys)

pub points_for-upsert :
    (j aid i p : ℕ) (rows : List QuizAnswer)
    → Unique rows
    → points_for j (upsert aid i p rows) ≡ (if i == j then p else points_for j rows)
unfolding upsert points_for new_answer
points_for-upsert j aid i p rows u = elim (Bool-cases (has_answer i rows)) [
  | inl present ↦ rw present (points_for-credit_answer j i p rows u present)
  | inr absent ↦
      rw (absent, points_for-append)
        (ground (arith, points_for_absent i rows absent, points_for_absent j rows))
]

answer_points-credit_answer :
    (qs : List QuestionSnapshot) (i p : ℕ) (rows : List QuizAnswer)
    → worth qs i ≤ p
    → Fits qs rows
    → answer_points rows ≤ answer_points (credit_answer i p rows)
unfolding answer_points credit_answer
answer_points-credit_answer qs i p [] w f = omega arith
answer_points-credit_answer qs i p (a ∷ rest) w f =
    ground (arith, answer_points-credit_answer qs i p rest w f.2)

answer_points-append :
    (xs ys : List QuizAnswer) → answer_points (xs ++ ys) ≡ answer_points xs + answer_points ys
unfolding answer_points
answer_points-append [] ys = omega arith
answer_points-append (a ∷ rest) ys = omega (arith, answer_points-append rest ys)

pub answer_points-upsert :
    (qs : List QuestionSnapshot) (aid i p : ℕ) (rows : List QuizAnswer)
    → worth qs i ≤ p
    → Fits qs rows
    → answer_points rows ≤ answer_points (upsert aid i p rows)
unfolding upsert
answer_points-upsert qs aid i p rows w f = elim (Bool-cases (has_answer i rows)) [
  | inl present ↦ rw present (answer_points-credit_answer qs i p rows w f)
  | inr absent ↦ rw absent (omega (arith, answer_points-append rows (new_answer aid i p ∷ [])))
]

-- The last row of the question already holds this credit.
pub record IsSettled (i : ℕ) (p : ℕ) (rows : List QuizAnswer) : Type 0 where
  pub present : has_answer i rows ≡ true
  pub fixed : credit_answer i p rows ≡ rows

credit_answer_comm :
    (i j p r : ℕ) (rows : List QuizAnswer)
    → i ≢ j
    → credit_answer i p (credit_answer j r rows) ≡ credit_answer j r (credit_answer i p rows)
unfolding credit_answer
credit_answer_comm i j p r [] ne = refl
credit_answer_comm i j p r (a ∷ rest) ne = ground (
  arith,
  credit_answer_comm i j p r rest ne,
  has_answer-credit_answer i j r rest,
  has_answer-credit_answer j i p rest,
)

credit_answer_new :
    (aid i p : ℕ) (rows : List QuizAnswer)
    → has_answer i rows ≡ false
    → credit_answer i p (rows ++ new_answer aid i p ∷ []) ≡ rows ++ new_answer aid i p ∷ []
unfolding credit_answer new_answer
credit_answer_new aid i p [] h = ground arith
credit_answer_new aid i p (a ∷ rest) h =
    ground
      (arith, credit_answer_new aid i p rest, has_answer-append i rest (new_answer aid i p ∷ []))

pub upsert-IsSettled : (aid i p : ℕ) (rows : List QuizAnswer) → IsSettled i p (upsert aid i p rows)
unfolding upsert has_answer new_answer
upsert-IsSettled aid i p rows = elim (Bool-cases (has_answer i rows)) [
  | inl here ↦ record {
    present = has_answer-upsert i aid i p rows ∙ ground arith;
    fixed = rw here (credit_answer-credit_answer i p p rows);
  }
  | inr absent ↦ record {
    present = has_answer-upsert i aid i p rows ∙ ground arith;
    fixed = rw absent (credit_answer_new aid i p rows absent);
  }
]

pub upsert-IsSettled_ne :
    (aid i j p r : ℕ) (rows : List QuizAnswer)
    → i ≢ j
    → IsSettled i p rows
    → IsSettled i p (upsert aid j r rows)
unfolding upsert has_answer new_answer
upsert-IsSettled_ne aid i j p r rows ne s = record {
  present = ground (arith, s.present, has_answer-upsert i aid j r rows);
  fixed = elim (Bool-cases (has_answer j rows)) [
    | inl here ↦ rw here (credit_answer_comm i j p r rows ne ∙ ap (credit_answer j r) s.fixed)
    | inr absent ↦ rw absent (
        credit_answer-append i p rows (new_answer aid j r ∷ []) (ground arith)
        ∙ ap (λ (xs : List QuizAnswer). xs ++ new_answer aid j r ∷ []) s.fixed)
  ];
}

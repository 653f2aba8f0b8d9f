-- ===== src/Quiz/Scoring/Answers.antt =====
-- Laws of the two operations that services/quiz_scoring.py makes on the rows of an attempt: the test
-- whether a question has a row, and the credit written to the last one.
use submissions_checker.Prelude.{
  ℕ, ◌≤◌, ◌≡◌, refl, true, false, List, [], ◌∷◌, ◌++◌, arith, if◌then◌else◌,
}
use submissions_checker.Quiz.Attempt.{QuestionSnapshot, QuizAnswer}
use submissions_checker.Quiz.Scoring.{has_answer, credit_answer}
use submissions_checker.Quiz.Scoring.Bounds.{worth, Fits}

pub has_answer-append :
    (i : ℕ) (xs ys : List QuizAnswer)
    → has_answer i (xs ++ ys) ≡ (if has_answer i xs then true else has_answer i ys)
unfolding has_answer
has_answer-append i [] ys = refl
has_answer-append i (a ∷ rest) ys = ground (arith, has_answer-append i rest ys)

pub has_answer-credit_answer :
    (j i p : ℕ) (rows : List QuizAnswer) → has_answer j (credit_answer i p rows) ≡ has_answer j rows
unfolding has_answer credit_answer
has_answer-credit_answer j i p [] = refl
has_answer-credit_answer j i p (a ∷ rest) = ground (arith, has_answer-credit_answer j i p rest)

-- Crediting one question keeps the rows fitting, if the credit is what the question is worth.
pub credit_answer-Fits :
    (qs : List QuestionSnapshot) (i p : ℕ) (rows : List QuizAnswer)
    → p ≤ worth qs i
    → Fits qs rows
    → Fits qs (credit_answer i p rows)
unfolding credit_answer
credit_answer-Fits qs i p [] w h = tt
credit_answer-Fits qs i p (a ∷ rest) w h =
    ground
      (arith, credit_answer-Fits qs i p rest w h.2, has_answer-credit_answer a.question_id i p rest)

-- Crediting a question again overwrites the first credit.
pub credit_answer-credit_answer :
    (i p r : ℕ) (rows : List QuizAnswer)
    → credit_answer i r (credit_answer i p rows) ≡ credit_answer i r rows
unfolding credit_answer
credit_answer-credit_answer i p r [] = refl
credit_answer-credit_answer i p r (a ∷ rest) =
    ground (arith, credit_answer-credit_answer i p r rest, has_answer-credit_answer i i p rest)

pub credit_answer_absent :
    (i p : ℕ) (rows : List QuizAnswer) → has_answer i rows ≡ false → credit_answer i p rows ≡ rows
unfolding credit_answer
credit_answer_absent i p [] h = refl
credit_answer_absent i p (a ∷ rest) h = ground (arith, credit_answer_absent i p rest)

pub credit_answer-append :
    (i p : ℕ) (xs ys : List QuizAnswer)
    → has_answer i ys ≡ false
    → credit_answer i p (xs ++ ys) ≡ credit_answer i p xs ++ ys
unfolding credit_answer
credit_answer-append i p [] ys h = credit_answer_absent i p ys h
credit_answer-append i p (a ∷ rest) ys h =
    ground (arith, credit_answer-append i p rest ys h, has_answer-append i rest ys)

-- ===== src/Quiz/Scoring/Credit.antt =====
-- The loop of apply_question_overrides (services/quiz_scoring.py) as a plain fold over the snapshot.
use submissions_checker.Prelude.{
  ℕ, ◌+◌, ◌≡◌, refl, ◌∙◌, sym, ap, Bool, true, false, Option, none, some, List, [], ◌∷◌, ◌++◌,
  arith, if◌then◌else◌, or_zero, opt_eq, Bool-cases, Option-cases, inl, inr, contains,
}
use mathlib.Core.List.{append_assoc}
use submissions_checker.Quiz.Attempt.{QuestionSnapshot, QuizAnswer}
use submissions_checker.Quiz.Scoring.{has_answer, credit_answer, new_answer, apply_loop}
use submissions_checker.Quiz.Scoring.Answers.{has_answer-append, credit_answer-append}

-- One step of the loop, on all rows at once.
unfoldable pub upsert : ℕ → ℕ → ℕ → List QuizAnswer → List QuizAnswer
upsert aid i p rows =
    if has_answer i rows then credit_answer i p rows else rows ++ new_answer aid i p ∷ []

-- The loop as a plain fold.
unfoldable pub credit_snapshot :
    ℕ → List ℕ → List QuestionSnapshot → List QuizAnswer → List QuizAnswer
credit_snapshot aid ids [] rows = rows
credit_snapshot aid ids (q ∷ qs) rows = elim q.id [
  | none ↦ credit_snapshot aid ids qs rows
  | some i ↦
      credit_snapshot aid ids qs
        (if contains i ids then upsert aid i (or_zero q.points) rows else rows)
]

unfoldable pub in_snapshot : ℕ → List QuestionSnapshot → Bool
in_snapshot i [] = false
in_snapshot i (q ∷ qs) = if opt_eq q.id (some i) then true else in_snapshot i qs

abbrev pub NotIn : Option ℕ → List QuestionSnapshot → Type 0
NotIn none qs = Unit
NotIn (some i) qs = in_snapshot i qs ≡ false

-- A draw holds each question once.
abbrev pub Distinct : List QuestionSnapshot → Type 0
Distinct [] = Unit
Distinct (q ∷ qs) = NotIn q.id qs × Distinct qs

-- None of the questions still to come has one of these rows.
abbrev pub Fresh : List QuestionSnapshot → List QuizAnswer → Type 0
Fresh qs rows = (i : ℕ) → in_snapshot i qs ≡ true → has_answer i rows ≡ false

Fresh-tail :
    (q : QuestionSnapshot) (qs : List QuestionSnapshot) (rows : List QuizAnswer)
    → Fresh (q ∷ qs) rows
    → Fresh qs rows
unfolding in_snapshot
Fresh-tail q qs rows f i h = f i (ground arith)

Fresh-created :
    (aid i p : ℕ) (qs : List QuestionSnapshot) (rows : List QuizAnswer)
    → in_snapshot i qs ≡ false
    → Fresh qs rows
    → Fresh qs (rows ++ new_answer aid i p ∷ [])
unfolding has_answer new_answer
Fresh-created aid i p qs rows absent f j h =
    ground (arith, f j h, has_answer-append j rows (new_answer aid i p ∷ []))

upsert_present :
    (aid i p : ℕ) (old new : List QuizAnswer)
    → has_answer i old ≡ true
    → has_answer i new ≡ false
    → credit_answer i p old ++ new ≡ upsert aid i p (old ++ new)
unfolding upsert
upsert_present aid i p old new h g =
    ground (arith, has_answer-append i old new, credit_answer-append i p old new g)

upsert_created :
    (aid i p : ℕ) (old new : List QuizAnswer)
    → has_answer i old ≡ false
    → has_answer i new ≡ false
    → old ++ (new ++ new_answer aid i p ∷ []) ≡ upsert aid i p (old ++ new)
unfolding upsert
upsert_created aid i p old new h g =
    rw (has_answer-append, h, g) (sym (append_assoc old new (new_answer aid i p ∷ [])))

Fresh-head :
    (q : QuestionSnapshot) (qs : List QuestionSnapshot) (rows : List QuizAnswer) (i : ℕ)
    → q.id ≡ some i
    → Fresh (q ∷ qs) rows
    → has_answer i rows ≡ false
unfolding in_snapshot
Fresh-head q qs rows i e f = f i (ground arith)

-- Over a snapshot that holds each question once, the loop is the fold: the rows that it keeps apart
-- make no difference.
pub apply_loop-eq :
    (aid : ℕ) (ids : List ℕ) (qs : List QuestionSnapshot) (old new : List QuizAnswer) (c : ℕ)
    → Distinct qs
    → Fresh qs new
    → (apply_loop aid ids qs old new c).0 ≡ credit_snapshot aid ids qs (old ++ new)
unfolding apply_loop credit_snapshot
apply_loop-eq aid ids [] old new c d f = refl
apply_loop-eq aid ids (q ∷ qs) old new c d f = elim (Option-cases q.id) [
  | inl e ↦ rw e (apply_loop-eq aid ids qs old new c d.1 (Fresh-tail q qs new f))
  | inr (i, e) ↦ elim (Bool-cases (contains i ids)) [
    | inl over ↦ elim (Bool-cases (has_answer i old)) [
      | inl present ↦
          rw (e, over, present)
            (apply_loop-eq aid ids qs (credit_answer i (or_zero q.points) old) new (c + 1) d.1
                (Fresh-tail q qs new f)
              ∙ ap (credit_snapshot aid ids qs) (
                  upsert_present aid i (or_zero q.points) old new present
                    (Fresh-head q qs new i e f)))
      | inr absent ↦
          rw (e, over, absent)
            (apply_loop-eq aid ids qs old (new ++ new_answer aid i (or_zero q.points) ∷ []) (c + 1)
                d.1
                (Fresh-created aid i (or_zero q.points) qs new (rw e at d.0)
                  (Fresh-tail q qs new f))
              ∙ ap (credit_snapshot aid ids qs) (
                  upsert_created aid i (or_zero q.points) old new absent
                    (Fresh-head q qs new i e f)))
    ]
    | inr plain ↦ rw (e, plain) (apply_loop-eq aid ids qs old new c d.1 (Fresh-tail q qs new f))
  ]
]

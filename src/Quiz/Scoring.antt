-- ===== src/Quiz/Scoring.antt =====
-- services/quiz_scoring.py: what a teacher's override does to an attempt, and what an attempt scores.
pub mod Bounds
pub mod Answers
pub mod Credit
pub mod Upsert
pub mod Fold
pub mod Overrides
pub mod Loaded
mod Examples
use submissions_checker.Prelude.{
  ℕ, zero, suc, ◌+◌, ◌≤◌, ◌<◌, ◌≡◌, Bool, true, false, not, ◌&&◌, Option, none, some, List, [], ◌∷◌,
  ◌++◌, ltb, ◌==◌, if◌then◌else◌, or_zero, opt_eq, any, contains,
}
use submissions_checker.Quiz.Attempt.{QuestionSnapshot, QuizAnswer, QuizAttempt}

-- Python's floats, as far as scoring uses them: `a / m` of two integers, `>=`, and the literal 0.6.
-- The quotient is correctly rounded, hence monotone in `a`.
pub record Floats : Type 1 where
  pub F : Type 0
  pub div : ℕ → ℕ → F
  pub leb_F : F → F → Bool
  pub default_pass_threshold : F
  pub div_mono :
      (t : F) (a b m : ℕ) → 0 < m → a ≤ b → leb_F t (div a m) ≡ true → leb_F t (div b m) ≡ true

-- A row of quiz_question_overrides.
pub record QuizQuestionOverride : Type 0 where
  pub plugin_config_id : ℕ
  pub plugin_config_version : ℕ
  pub question_id : ℕ
  pub credit_all : Bool

overridden_ids : ℕ → ℕ → List QuizQuestionOverride → List ℕ
overridden_ids c v [] = []
overridden_ids c v (o ∷ os) =
    let rest = overridden_ids c v os in
    if o.plugin_config_id == c && o.plugin_config_version == v && o.credit_all
    then o.question_id ∷ rest
    else rest

-- The set as a list: only membership in it is ever asked.
unfoldable pub load_question_overrides : List QuizQuestionOverride → Option ℕ → Option ℕ → List ℕ
unfolding overridden_ids
load_question_overrides rows (some c) (some v) = overridden_ids c v rows
load_question_overrides rows none _ = []
load_question_overrides rows (some c) none = []

unfoldable pub has_answer : ℕ → List QuizAnswer → Bool
has_answer q [] = false
has_answer q (a ∷ rest) = if a.question_id == q then true else has_answer q rest

-- `by_question[q]` is the last row of the question `q`, since a later row replaces an earlier one
-- in the dict; the two assignments change that row in place.
unfoldable pub credit_answer : ℕ → ℕ → List QuizAnswer → List QuizAnswer
unfolding has_answer
credit_answer q points [] = []
credit_answer q points (a ∷ rest) =
    let later = a ∷ credit_answer q points rest in
    if has_answer q rest
    then later
    else if a.question_id == q
    then record a { is_correct = some true; points_earned = some points } ∷ rest
    else a ∷ rest

-- `QuizAnswer(...)` of the `else` branch.
unfoldable pub new_answer : ℕ → ℕ → ℕ → QuizAnswer
new_answer attempt_id q points = record {
  attempt_id = attempt_id;
  question_id = q;
  is_correct = some true;
  points_earned = some points;
  timed_out = false;
}

-- The loop over the snapshot. The rows that were there when the loop began (`by_question`) are kept
-- apart from the rows that it appends, as the dict is not updated; the last part counts `changed`.
unfoldable pub apply_loop :
    ℕ → List ℕ → List QuestionSnapshot → List QuizAnswer → List QuizAnswer → ℕ → List QuizAnswer × ℕ
unfolding has_answer credit_answer new_answer
apply_loop aid ids [] old new changed = (old ++ new, changed)
apply_loop aid ids (q ∷ qs) old new changed = elim q.id [
  | none ↦ apply_loop aid ids qs old new changed
  | some i ↦
      let skip = apply_loop aid ids qs old new changed in
      let points = or_zero q.points in
      let updated = apply_loop aid ids qs (credit_answer i points old) new (changed + 1) in
      let created = apply_loop aid ids qs old (new ++ new_answer aid i points ∷ []) (changed + 1) in
      if contains i ids then if has_answer i old then updated else created else skip
]

module _ {ℓ} {F : Type ℓ} where
  -- The attempt with its answers rewritten, and the number of rows written.
  unfoldable pub apply_question_overrides : QuizAttempt F → List ℕ → QuizAttempt F × ℕ
  unfolding apply_loop
  apply_question_overrides attempt [] = (attempt, 0)
  apply_question_overrides attempt (i ∷ ids) =
      let (rows, changed) =
        apply_loop attempt.id (i ∷ ids) attempt.questions_snapshot attempt.answers [] 0 in
      (record attempt { answers = rows }, changed)

-- `sum(a.points_earned or 0 for a in attempt.answers)`
unfoldable pub answer_points : List QuizAnswer → ℕ
answer_points [] = 0
answer_points (a ∷ rest) = or_zero a.points_earned + answer_points rest

-- `sum(q["points"] for q in attempt.questions_snapshot)`; `none` is the `KeyError`.
unfoldable pub snapshot_points : List QuestionSnapshot → Option ℕ
snapshot_points [] = some 0
snapshot_points (q ∷ qs) = elim q.points [
  | none ↦ none
  | some p ↦ elim (snapshot_points qs) [ none ↦ none | some r ↦ some (p + r) ]
]

pub record Scored : Type 0 where
  pub score : ℕ
  pub max_score : ℕ
  pub is_passed : Bool
  pub force_failed : Bool

module _ (fl : Floats) where
  open fl use {F, div, leb_F, default_pass_threshold}

  unfoldable pub threshold : Option F → F
  threshold none = default_pass_threshold
  threshold (some t) = t

  -- `(score / max_score) >= threshold if max_score > 0 else False`
  unfoldable pub passes : Option F → ℕ → ℕ → Bool
  unfolding threshold
  passes t score max_score =
      if ltb 0 max_score then leb_F (threshold t) (div score max_score) else false

  -- The rule, once `max_score` is known.
  unfoldable pub scored : QuizAttempt F → ℕ → Scored
  unfolding passes
  scored attempt m =
      let s = answer_points attempt.answers in
      if attempt.force_fail
      then record { score = s; max_score = m; is_passed = false; force_failed = true }
      else record {
        score = s;
        max_score = m;
        is_passed = passes attempt.config_snapshot.pass_threshold_pct s m;
        force_failed = false;
      }

  -- `none` is the `KeyError` of a snapshot entry with no points.
  unfoldable pub score_attempt : QuizAttempt F → Option Scored
  unfolding scored
  score_attempt attempt = elim (snapshot_points attempt.questions_snapshot) [
    | none ↦ none
    | some m ↦ some (scored attempt m)
  ]

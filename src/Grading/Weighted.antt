-- ===== src/Grading/Weighted.antt =====
-- services/grading.py: the weighted grade, and `finalize_grade`, which writes the grade of a completed
-- submission.
pub mod Unified
mod Examples
use submissions_checker.Prelude.{
  ℕ, zero, suc, ◌+◌, ◌≤◌, min, max, Bool, true, false, not, ◌&&◌, ◌||◌, Option, none, some, List,
  [], ◌∷◌, ◌++◌, map, length, find, modify_first, leb, Codes, ◌==◌, if◌then◌else◌, is_true, is_some,
  or_zero, ℤ, pos, negsuc,
}
use submissions_checker.Squads.State.{Squad}
use submissions_checker.Quiz.Attempt.{QuizAttempt}
use submissions_checker.Grading.TeacherScores.{
  Percent, AssignmentConfig, Breakdown, criteria, is_complete, compute,
}
use submissions_checker.Grading.Rows.{
  StudentAssignment, AssignmentRows, is_row, add_row, member_sa_ids, write_grade, write_grades,
}

-- Python's float operations, as far as the grade uses them. `round` and `ceil6` are `round(x)` and
-- `math.ceil(round(x, 6))`, `scale lo hi x` is `lo + (hi - lo) * (x / 100.0)`, `round2` is `round(x, 2)`
-- and `pct s m` is `(s / m) * 100.0`.
pub record GradeFloats : Type 1 where
  pub percent : Percent
  pub zero_F : percent.F
  pub one_F : percent.F
  pub add : percent.F → percent.F → percent.F
  pub mul : percent.F → percent.F → percent.F
  pub div : percent.F → percent.F → percent.F
  pub lt_F : percent.F → percent.F → Bool
  pub scale : ℕ → ℕ → percent.F → percent.F
  pub round : percent.F → ℤ
  pub ceil6 : percent.F → ℤ
  pub round2 : percent.F → percent.F
  pub pct : ℕ → ℕ → percent.F
  pub of_count : ℕ → percent.F

-- The keys of the block `grading`; without a key its default holds.
pub record GradingConfig {ℓ} (F : Type ℓ) : Type ℓ where
  pub code_weight : Option F
  pub quiz_weight : Option F
  pub works_weight : Option F
  pub quality_weight : Option F

pub record GradeBreakdown {ℓ} (F : Type ℓ) : Type ℓ where
  pub grade : ℕ
  pub works_score : Option F
  pub quality_score : Option F
  pub quiz_score : Option F
  pub code_weight : F
  pub quiz_weight : F
  pub works_weight : F
  pub quality_weight : F

unfoldable pub or_else {ℓ} : {A : Type ℓ} → Option A → A → A
or_else none d = d
or_else (some x) d = x

-- `max(min_grade, min(max_grade, rounded))`; grades are not negative.
unfoldable pub clamp : ℕ → ℕ → ℤ → ℕ
clamp min_grade max_grade (pos n) = max min_grade (min max_grade n)
clamp min_grade max_grade (negsuc n) = min_grade

module _ (gf : GradeFloats) where
  open gf use {
    percent, zero_F, one_F, add, mul, div, lt_F, scale, round, ceil6, round2, pct, of_count,
  }
  open percent use {F}

  -- `present`
  unfoldable pub present : List (Option F × F) → List (F × F)
  present [] = []
  present ((none, w) ∷ pairs) = present pairs
  present ((some v, w) ∷ pairs) =
      let rest = present pairs in if lt_F zero_F w then (v, w) ∷ rest else rest

  -- `sum(...)` from the left, as Python adds.
  unfoldable pub sum_from : F → List F → F
  sum_from acc [] = acc
  sum_from acc (x ∷ xs) = sum_from (add acc x) xs

  unfoldable pub blend : List (Option F × F) → Option F
  unfolding present sum_from
  blend pairs =
      let found = present pairs in
      let total = sum_from zero_F (map (λ p. p.1) found) in
      if (elim found [ [] ↦ true | _ ∷ _ ↦ false ]) || not (lt_F zero_F total)
      then none
      else some (div (sum_from zero_F (map (λ p. mul p.0 p.1) found)) total)

  unfoldable pub compute_grade :
      GradingConfig F → ℕ → ℕ → Option F → Option F → Option F → Bool → GradeBreakdown F
  unfolding blend or_else clamp
  compute_grade cfg min_grade max_grade works_pct ai_mark quiz_pct round_up =
      let code_weight = or_else cfg.code_weight one_F in
      let quiz_weight = or_else cfg.quiz_weight zero_F in
      let works_weight = or_else cfg.works_weight one_F in
      let quality_weight = or_else cfg.quality_weight zero_F in
      let code_score = blend ((works_pct, works_weight) ∷ (ai_mark, quality_weight) ∷ []) in
      let blended = blend ((code_score, code_weight) ∷ (quiz_pct, quiz_weight) ∷ []) in
      let scaled = scale min_grade max_grade (or_else blended zero_F) in
      record {
        grade = clamp min_grade max_grade (if round_up then ceil6 scaled else round scaled);
        works_score = works_pct;
        quality_score = ai_mark;
        quiz_score = quiz_pct;
        code_weight = code_weight;
        quiz_weight = quiz_weight;
        works_weight = works_weight;
        quality_weight = quality_weight;
      }

  -- `_pct` on naturals: a maximum of 0 is no maximum.
  unfoldable pub percentage : Option ℕ → Option ℕ → Option F
  percentage score none = none
  percentage none (some m) = none
  percentage (some s) (some zero) = none
  percentage (some s) (some (suc m)) = some (pct s (suc m))

  -- `if pct > best.get(student_id, -1.0): best[student_id] = pct`; a percentage is above -1, and the list
  -- is kept in the order of the ids.
  unfoldable pub keep_best : ℕ → F → List (ℕ × F) → List (ℕ × F)
  keep_best i p [] = (i, p) ∷ []
  keep_best i p ((j, q) ∷ best) =
      if i == j then (j, if lt_F q p then p else q) ∷ best else (j, q) ∷ keep_best i p best

  -- One round of the loop of `squad_quiz_pct`.
  unfoldable pub count_attempt {ℓ} : {G : Type ℓ} → QuizAttempt G → List (ℕ × F) → List (ℕ × F)
  unfolding percentage keep_best
  count_attempt a best =
      if is_true a.is_passed
      then (elim a.student_id [
        | none ↦ best
        | some i ↦ elim (percentage a.score a.max_score) [
          | none ↦ best
          | some p ↦ keep_best i p best
        ]
      ])
      else best

  unfoldable pub best_from {ℓ} : {G : Type ℓ} → List (QuizAttempt G) → List (ℕ × F) → List (ℕ × F)
  unfolding count_attempt
  best_from [] best = best
  best_from (a ∷ attempts) best = best_from attempts (count_attempt a best)

  -- `sorted(best.items())`: the keys of a dict are distinct.
  unfoldable pub insert_member : ℕ × F → List (ℕ × F) → List (ℕ × F)
  insert_member (i, p) [] = (i, p) ∷ []
  insert_member (i, p) ((j, q) ∷ rest) =
      if leb i j then (i, p) ∷ (j, q) ∷ rest else (j, q) ∷ insert_member (i, p) rest

  unfoldable pub sort_members : List (ℕ × F) → List (ℕ × F)
  unfolding insert_member
  sort_members [] = []
  sort_members (m ∷ rest) = insert_member m (sort_members rest)

  -- The mean, and the members with their percentages.
  unfoldable pub squad_quiz_pct {ℓ} : {G : Type ℓ} → List (QuizAttempt G) → Option F × List (ℕ × F)
  unfolding best_from sort_members sum_from
  squad_quiz_pct attempts = elim (best_from attempts []) [
    | [] ↦ (none, [])
    | first ∷ rest ↦ (
      some (
          div (sum_from zero_F (map (λ m. m.1) (first ∷ rest))) (of_count (length (first ∷ rest)))),
      map (λ m. (m.0, round2 m.1)) (sort_members (first ∷ rest)),
    )
  ]

unfoldable pub target_sa_ids :
    StudentAssignment → ℕ → Option Squad → AssignmentRows → List ℕ × AssignmentRows
unfolding member_sa_ids
target_sa_ids sa asg_id none db = (sa.id ∷ [], db)
target_sa_ids sa asg_id (some squad) db = member_sa_ids squad.members asg_id db

-- The assignment of a submission: its config in the scored mode, and its weights otherwise.
pub record GradedAssignment {ℓ} (F : Type ℓ) : Type ℓ where
  pub id : ℕ
  pub scored_config : Option AssignmentConfig
  pub grading : GradingConfig F
  pub min_grade : ℕ
  pub max_grade : ℕ

-- What `finalize_grade` reads of the submission: its row of students_assignments with the assignment
-- (`none` where one of them is missing), the scores of the tests, the mark of the AI, its attempts and
-- its squad.
pub record GradedSubmission {ℓ κ} (F : Type ℓ) (G : Type κ) : Type (ℓ ⊔ κ) where
  pub owner : Option (StudentAssignment × GradedAssignment F)
  pub test_score : Option ℕ
  pub test_max_score : Option ℕ
  pub code_mark : Option F
  pub quiz_attempts : List (QuizAttempt G)
  pub squad : Option Squad

module _ (gf : GradeFloats) where
  open gf use {percent}
  open percent use {F}

  module _ {ℓ} {G : Type ℓ} where
    -- The percentage of the first passed attempt, or the mean of the squad.
    unfoldable pub quiz_pct_of : GradedSubmission F G → Option F
    unfolding squad_quiz_pct percentage
    quiz_pct_of sub = elim sub.squad [
      | some squad ↦ (squad_quiz_pct gf sub.quiz_attempts).0
      | none ↦ elim (find (λ a. is_true a.is_passed) sub.quiz_attempts) [
        | none ↦ none
        | some a ↦ percentage gf a.score a.max_score
      ]
    ]

    -- `none` where a half of a scored grade is missing.
    unfoldable pub grade_of :
        StudentAssignment → GradedAssignment F → GradedSubmission F G → Option ℕ
    unfolding quiz_pct_of compute_grade percentage
    grade_of sa asg sub = elim asg.scored_config [
      | none ↦ some (
          (compute_grade gf asg.grading asg.min_grade asg.max_grade
            (percentage gf sub.test_score sub.test_max_score) sub.code_mark (quiz_pct_of sub)
            (is_some sub.squad)).grade)
      | some cfg ↦ elim (quiz_pct_of sub) [
        | none ↦ none
        | some q ↦
            let scores = or_else sa.teacher_scores [] in
            if is_complete (criteria cfg) scores
            then some ((compute percent cfg q scores (is_some sub.squad)).grade)
            else none
      ]
    ]

    -- The grade, and the rows; without a grade nothing is written.
    unfoldable pub finalize_grade :
        GradedSubmission F G → AssignmentRows → Option ℕ × AssignmentRows
    unfolding grade_of target_sa_ids write_grades
    finalize_grade sub db = elim sub.owner [
      | none ↦ (none, db)
      | some (sa, asg) ↦ elim (grade_of sa asg sub) [
        | none ↦ (none, db)
        | some grade ↦
            let (ids, db') = target_sa_ids sa asg.id sub.squad db in
            (some grade, record db' { rows = write_grades grade ids db'.rows })
      ]
    ]

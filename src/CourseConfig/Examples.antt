-- ===== src/CourseConfig/Examples.antt =====
-- Two versions of a configuration: the second renames the first assignment and switches on its grading by
-- a language model, drops the second one and adds a third.
use submissions_checker.Prelude.{
  ℕ, ◌≡◌, refl, arith, true, false, not, Option, none, some, List, [], ◌∷◌, Codes, ◌==◌, length,
  lookup_code,
}
use submissions_checker.CourseConfig.{
  Yaml, ConfigKey, AssignmentEntry, AssignmentColumns, grading, llm_grading, create_assignment,
  same_config, build_config,
}
use submissions_checker.CourseConfig.Refreshed.{refreshed}
use submissions_checker.CourseConfig.Plan.{Entries, compute_plan, execute_plan}
use submissions_checker.CourseConfig.Plan.Applied.{expected, created_from, execute_plan-refreshed}

numbers_eq : (a b : ℕ) → (a == b) ≡ true → a ≡ b
numbers_eq a b h = ground arith

abbrev numbers : Yaml
numbers = record {
  V = ℕ;
  eq_V = λ a b. a == b;
  eq_V_eq = numbers_eq;
  truth = λ v. not (v == 0);
  moment = λ v. some v;
  text = λ c. length c;
  zero_V = 0;
  hundred_V = 100;
}

abbrev graded_by : Option ℕ → ConfigKey → Option ℕ
graded_by model grading = some 7
graded_by model llm_grading = model
graded_by model _ = none

abbrev entry : ℕ → Option ℕ → AssignmentEntry ℕ
entry title model = record {
  title = some title;
  description = none;
  deadline = some 90;
  min_grade = none;
  max_grade = some 12;
  block = graded_by model;
}

abbrev lab : ℕ → Codes
lab n = 97 ∷ n ∷ []

abbrev before : Entries ℕ
before = (lab 1, entry 11 none) ∷ (lab 2, entry 12 none) ∷ []

abbrev next : Entries ℕ
next = (lab 1, entry 21 (some 1)) ∷ (lab 3, entry 13 none) ∷ []

abbrev rows : List (Codes × AssignmentColumns ℕ)
rows =
    (lab 1, create_assignment numbers (lab 1) (entry 11 none))
    ∷ (lab 2, create_assignment numbers (lab 2) (entry 12 none))
    ∷ []

rows_sync : (c : Codes) → lookup_code c rows ≡ created_from numbers c before
unfolding create_assignment
rows_sync c = ground arith

execute_plan-refreshed_example :
    (rows' : List (Codes × AssignmentColumns ℕ)) × (execute_plan numbers
        (λ c. false)
        (compute_plan numbers next before)
        rows
      ≡ some rows')
    × ((c : Codes) → lookup_code c rows' ≡ expected numbers c next before)
execute_plan-refreshed_example =
    execute_plan-refreshed numbers (λ c. false) next before rows refl rows_sync (λ c h n. refl)

-- The row of the first assignment has the new title, and its config does not name the model.
stale : (refreshed numbers (lab 1) (entry 21 (some 1)) (entry 11 none)).config ≡ (grading, 7) ∷ []
unfolding refreshed same_config build_config
stale = refl

-- ===== src/Quiz/Scoring/Loaded.antt =====
-- services/quiz_scoring.py `load_question_overrides`: which questions count as overridden.
use submissions_checker.Prelude.{
  ℕ, ◌≡◌, refl, Bool, ◌&&◌, some, List, [], ◌∷◌, arith, any, contains, ◌==◌,
}
use submissions_checker.Quiz.Scoring.{QuizQuestionOverride, overridden_ids, load_question_overrides}

-- A row that credits this question of this config version.
abbrev pub credits : ℕ → ℕ → ℕ → QuizQuestionOverride → Bool
credits config version question o =
    o.plugin_config_id == config
    && o.plugin_config_version == version
    && o.credit_all
    && o.question_id == question

contains-overridden_ids :
    (config version question : ℕ) (rows : List QuizQuestionOverride)
    → contains question (overridden_ids config version rows)
      ≡ any (credits config version question) rows
unfolding overridden_ids
contains-overridden_ids config version question [] = refl
contains-overridden_ids config version question (o ∷ rows) =
    ground (arith, contains-overridden_ids config version question rows)

pub contains-load_question_overrides :
    (config version question : ℕ) (rows : List QuizQuestionOverride)
    → contains question (load_question_overrides rows (some config) (some version))
      ≡ any (credits config version question) rows
unfolding load_question_overrides
contains-load_question_overrides config version question rows =
    contains-overridden_ids config version question rows

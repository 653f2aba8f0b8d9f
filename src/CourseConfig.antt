-- ===== src/CourseConfig.antt =====
-- services/config_apply.py: a teacher's config.yml is compared with the one before and applied to the
-- subject and its assignments. The uploads, and the pictures and content files whose addresses they give,
-- are left out; so is the archive, of which only the hash is compared.
pub mod Refreshed
pub mod Plan
mod Examples
use submissions_checker.Prelude.{
  ℕ, ◌+◌, ◌≡◌, Bool, true, false, not, ◌&&◌, Option, none, some, List, [], ◌∷◌, ◌++◌, map, all, any,
  filter, max, leb, Codes, codes_eq, lookup_code, opt_eq, ◌==◌, if◌then◌else◌, is_some,
}

-- The keys that `_build_assignment_config` copies.
pub data ConfigKey : Type 0 where
  review_mode late_policy max_submissions download_links variants_required : ConfigKey
  sandbox variants ai_review grading llm_grading : ConfigKey

-- The values of a YAML document, up to Python's ==, with what the service reads off them: truth, the
-- moment of a deadline (none where it does not parse), a text and the two default grades.
pub record Yaml : Type 1 where
  pub V : Type 0
  pub eq_V : V → V → Bool
  pub eq_V_eq : (a b : V) → eq_V a b ≡ true → a ≡ b
  pub truth : V → Bool
  pub moment : V → Option ℕ
  pub text : Codes → V
  pub zero_V : V
  pub hundred_V : V

-- An entry of `assignments`; `none` is a key that it does not have. The first five are not null.
pub record AssignmentEntry (V : Type 0) : Type 0 where
  pub title : Option V
  pub description : Option V
  pub deadline : Option V
  pub min_grade : Option V
  pub max_grade : Option V
  pub block : ConfigKey → Option V

-- The columns of a row of subjects_assignments that a configuration sets.
pub record AssignmentColumns (V : Type 0) : Type 0 where
  pub title : V
  pub description : Option V
  pub deadline : Option ℕ
  pub min_grade : V
  pub max_grade : V
  pub config : List (ConfigKey × V)

pub data Field : Type 0 where
  title description deadline min_grade max_grade config : Field

-- `config_keys` of `_diff_assignment`, and the keys of `_build_assignment_config`.
abbrev pub config_keys : List ConfigKey
config_keys =
    review_mode ∷ late_policy ∷ max_submissions ∷ download_links ∷ variants_required ∷ sandbox
    ∷ variants ∷ ai_review ∷ grading ∷ []

abbrev pub built_keys : List ConfigKey
built_keys =
    review_mode ∷ late_policy ∷ max_submissions ∷ download_links ∷ variants_required ∷ sandbox
    ∷ variants ∷ ai_review ∷ grading ∷ llm_grading ∷ []

unfoldable pub or_given : {V : Type 0} → Option V → V → V
or_given none d = d
or_given (some v) d = v

-- `{k: a[k] for k in keys if k in a}`
unfoldable pub build_config :
    {V : Type 0} → List ConfigKey → AssignmentEntry V → List (ConfigKey × V)
build_config [] a = []
build_config (k ∷ keys) a = elim (a.block k) [
  | none ↦ build_config keys a
  | some v ↦ (k, v) ∷ build_config keys a
]

-- `changed.append(f)` under its test.
unfoldable pub note : Bool → Field → List Field → List Field
note same f rest = if same then rest else f ∷ rest

module _ (y : Yaml) where
  open y use {V, eq_V, truth, moment, text, zero_V, hundred_V}

  unfoldable pub same_value : Option V → Option V → Bool
  same_value none none = true
  same_value (some a) (some b) = eq_V a b
  same_value _ _ = false

  -- `... or None`
  unfoldable pub or_none : Option V → Option V
  or_none none = none
  or_none (some v) = if truth v then some v else none

  unfoldable pub parse_deadline : Option V → Option ℕ
  parse_deadline none = none
  parse_deadline (some v) = if truth v then moment v else none

  unfoldable pub same_config : AssignmentEntry V → AssignmentEntry V → Bool
  unfolding same_value
  same_config new prev = all (λ k. same_value (new.block k) (prev.block k)) config_keys

  unfoldable pub diff_assignment : AssignmentEntry V → AssignmentEntry V → List Field
  unfolding note same_value same_config
  diff_assignment new prev = note (same_value new.title prev.title) title (
      note (same_value new.description prev.description) description (
        note (same_value new.deadline prev.deadline) deadline (
          note (same_value new.min_grade prev.min_grade) min_grade (
            note (same_value new.max_grade prev.max_grade) max_grade
              (note (same_config new prev) config [])))))

  unfoldable pub create_assignment : Codes → AssignmentEntry V → AssignmentColumns V
  unfolding or_given or_none parse_deadline build_config
  create_assignment code a = record {
    title = or_given a.title (text code);
    description = or_none a.description;
    deadline = parse_deadline a.deadline;
    min_grade = or_given a.min_grade zero_V;
    max_grade = or_given a.max_grade hundred_V;
    config = build_config built_keys a;
  }

  unfoldable pub apply_field :
      Codes → AssignmentEntry V → Field → AssignmentColumns V → AssignmentColumns V
  unfolding or_given or_none parse_deadline build_config
  apply_field code a title row = record row { title = or_given a.title (text code) }
  apply_field code a description row = record row { description = or_none a.description }
  apply_field code a deadline row = record row { deadline = parse_deadline a.deadline }
  apply_field code a min_grade row = record row { min_grade = or_given a.min_grade zero_V }
  apply_field code a max_grade row = record row { max_grade = or_given a.max_grade hundred_V }
  apply_field code a config row = record row { config = build_config built_keys a }

  unfoldable pub apply_assignment_fields :
      Codes → AssignmentEntry V → List Field → AssignmentColumns V → AssignmentColumns V
  unfolding apply_field
  apply_assignment_fields code a [] row = row
  apply_assignment_fields code a (f ∷ fields) row =
      apply_assignment_fields code a fields (apply_field code a f row)

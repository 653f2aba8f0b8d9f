-- ===== src/CourseConfig/Refreshed.antt =====
-- services/config_apply.py: what the field-level difference leaves in the rows.
use mathlib.Core.Path.{fun_ext}
use submissions_checker.Prelude.{
  ◌≡◌, refl, ap, ◌∙◌, Bool, true, false, Option, none, some, List, [], arith, Codes, if◌then◌else◌,
  all, ◌||◌, ◌∷◌,
}
use submissions_checker.CourseConfig.{
  Yaml, AssignmentEntry, AssignmentColumns, Field, title, description, deadline, min_grade,
  max_grade, config, config_keys, built_keys, ConfigKey, review_mode, late_policy, max_submissions,
  download_links, variants_required, sandbox, variants, ai_review, grading, llm_grading, or_given,
  build_config, note, same_value, or_none, parse_deadline, same_config, diff_assignment,
  create_assignment, apply_field, apply_assignment_fields,
}

abbrev is_llm_grading : ConfigKey → Bool
is_llm_grading llm_grading = true
is_llm_grading _ = false

abbrev every_key : List ConfigKey
every_key =
    review_mode ∷ late_policy ∷ max_submissions ∷ download_links ∷ variants_required ∷ sandbox
    ∷ variants ∷ ai_review ∷ grading ∷ llm_grading ∷ []

module _ (y : Yaml) where
  open y use {V, eq_V, eq_V_eq}

  same_value-eq : (a b : Option V) → same_value y a b ≡ true → a ≡ b
  unfolding same_value
  same_value-eq none none h = refl
  same_value-eq (some a) (some b) h = ap some (eq_V_eq a b h)
  same_value-eq none (some b) h = absurd (ground arith)
  same_value-eq (some a) none h = absurd (ground arith)

  apply-note :
      (code : Codes) (a : AssignmentEntry V) (same : Bool) (f : Field) (rest : List Field)
      (row : AssignmentColumns V)
      → apply_assignment_fields y code a (note same f rest) row
        ≡ apply_assignment_fields y code a rest (if same then row else apply_field y code a f row)
  unfolding apply_assignment_fields note
  apply-note code a true f rest row = refl
  apply-note code a false f rest row = refl

  apply-title :
      (code : Codes) (new prev : AssignmentEntry V) (rest : List Field) (row : AssignmentColumns V)
      → row.title ≡ or_given prev.title (y.text code)
      → apply_assignment_fields y code new (note (same_value y new.title prev.title) title rest) row
        ≡ apply_assignment_fields y code new rest
            (record row { title = or_given new.title (y.text code) })
  unfolding apply_field
  apply-title code new prev rest row h =
      let kept : (if same_value y new.title prev.title
            then row
            else apply_field y code new title row)
          ≡ record row { title = or_given new.title (y.text code) } =
        ground (arith, same_value-eq new.title prev.title) in
      apply-note code new (same_value y new.title prev.title) title rest row
      ∙ ap (apply_assignment_fields y code new rest) kept

  apply-description :
      (code : Codes) (new prev : AssignmentEntry V) (rest : List Field) (row : AssignmentColumns V)
      → row.description ≡ or_none y prev.description
      → apply_assignment_fields y code new
          (note (same_value y new.description prev.description) description rest)
          row
        ≡ apply_assignment_fields y code new rest
            (record row { description = or_none y new.description })
  unfolding apply_field
  apply-description code new prev rest row h =
      let kept : (if same_value y new.description prev.description
            then row
            else apply_field y code new description row)
          ≡ record row { description = or_none y new.description } =
        ground (arith, same_value-eq new.description prev.description) in
      apply-note code new (same_value y new.description prev.description) description rest row
      ∙ ap (apply_assignment_fields y code new rest) kept

  apply-deadline :
      (code : Codes) (new prev : AssignmentEntry V) (rest : List Field) (row : AssignmentColumns V)
      → row.deadline ≡ parse_deadline y prev.deadline
      → apply_assignment_fields y code new
          (note (same_value y new.deadline prev.deadline) deadline rest)
          row
        ≡ apply_assignment_fields y code new rest
            (record row { deadline = parse_deadline y new.deadline })
  unfolding apply_field
  apply-deadline code new prev rest row h =
      let kept : (if same_value y new.deadline prev.deadline
            then row
            else apply_field y code new deadline row)
          ≡ record row { deadline = parse_deadline y new.deadline } =
        ground (arith, same_value-eq new.deadline prev.deadline) in
      apply-note code new (same_value y new.deadline prev.deadline) deadline rest row
      ∙ ap (apply_assignment_fields y code new rest) kept

  apply-min_grade :
      (code : Codes) (new prev : AssignmentEntry V) (rest : List Field) (row : AssignmentColumns V)
      → row.min_grade ≡ or_given prev.min_grade y.zero_V
      → apply_assignment_fields y code new
          (note (same_value y new.min_grade prev.min_grade) min_grade rest)
          row
        ≡ apply_assignment_fields y code new rest
            (record row { min_grade = or_given new.min_grade y.zero_V })
  unfolding apply_field
  apply-min_grade code new prev rest row h =
      let kept : (if same_value y new.min_grade prev.min_grade
            then row
            else apply_field y code new min_grade row)
          ≡ record row { min_grade = or_given new.min_grade y.zero_V } =
        ground (arith, same_value-eq new.min_grade prev.min_grade) in
      apply-note code new (same_value y new.min_grade prev.min_grade) min_grade rest row
      ∙ ap (apply_assignment_fields y code new rest) kept

  apply-max_grade :
      (code : Codes) (new prev : AssignmentEntry V) (rest : List Field) (row : AssignmentColumns V)
      → row.max_grade ≡ or_given prev.max_grade y.hundred_V
      → apply_assignment_fields y code new
          (note (same_value y new.max_grade prev.max_grade) max_grade rest)
          row
        ≡ apply_assignment_fields y code new rest
            (record row { max_grade = or_given new.max_grade y.hundred_V })
  unfolding apply_field
  apply-max_grade code new prev rest row h =
      let kept : (if same_value y new.max_grade prev.max_grade
            then row
            else apply_field y code new max_grade row)
          ≡ record row { max_grade = or_given new.max_grade y.hundred_V } =
        ground (arith, same_value-eq new.max_grade prev.max_grade) in
      apply-note code new (same_value y new.max_grade prev.max_grade) max_grade rest row
      ∙ ap (apply_assignment_fields y code new rest) kept

  -- Two entries have the same block, or neither has one.
  abbrev same_block : Option V → Option V → Bool
  same_block none none = true
  same_block (some a) (some b) = eq_V a b
  same_block _ _ = false

  -- No key but llm_grading differs.
  abbrev pub agree_but_llm_grading : AssignmentEntry V → AssignmentEntry V → Bool
  agree_but_llm_grading new prev =
      all (λ k. is_llm_grading k || same_block (new.block k) (prev.block k)) every_key

  same_value-same_block : (a b : Option V) → same_value y a b ≡ same_block a b
  unfolding same_value
  same_value-same_block none none = refl
  same_value-same_block (some a) (some b) = refl
  same_value-same_block none (some b) = refl
  same_value-same_block (some a) none = refl

  same_config_lem :
      (new prev : AssignmentEntry V) → same_config y new prev ≡ agree_but_llm_grading new prev
  unfolding same_config
  same_config_lem new prev =
      ap (λ (f : ConfigKey → Bool). all f config_keys)
        (fun_ext (λ k. same_value-same_block (new.block k) (prev.block k)))

  -- The row of an assignment that both configurations have, once the new one is applied.
  unfoldable pub refreshed : Codes → AssignmentEntry V → AssignmentEntry V → AssignmentColumns V
  refreshed code new prev = record (create_assignment y code new) {
    config =
        if agree_but_llm_grading new prev
        then build_config built_keys prev
        else build_config built_keys new;
  }

  apply-config :
      (code : Codes) (new prev : AssignmentEntry V) (row : AssignmentColumns V)
      → row.config ≡ build_config built_keys prev
      → apply_assignment_fields y code new (note (same_config y new prev) config []) row
        ≡ record row {
          config =
              if agree_but_llm_grading new prev
              then build_config built_keys prev
              else build_config built_keys new;
        }
  unfolding apply_field apply_assignment_fields
  apply-config code new prev row h =
      apply-note code new (same_config y new prev) config [] row
      ∙ ground (arith, same_config_lem new prev)

  -- A row that was created from the previous entry of its assignment becomes the row that the new entry
  -- creates, except that its config stays the old one where the entries differ in no key but llm_grading.
  pub apply_assignment_fields-refreshed :
      (code : Codes) (new prev : AssignmentEntry V)
      → apply_assignment_fields y code new
          (diff_assignment y new prev)
          (create_assignment y code prev)
        ≡ refreshed code new prev
  unfolding diff_assignment create_assignment refreshed
  apply_assignment_fields-refreshed code new prev =
      apply-title code new prev _ _ refl
      ∙ apply-description code new prev _ _ refl
      ∙ apply-deadline code new prev _ _ refl
      ∙ apply-min_grade code new prev _ _ refl
      ∙ apply-max_grade code new prev _ _ refl
      ∙ apply-config code new prev _ refl

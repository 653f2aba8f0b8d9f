-- ===== src/CourseConfig/Plan.antt =====
-- services/config_apply.py: the plan for the assignments of a subject, and its execution on the rows. The
-- rows of one subject are a dict by their code, since (subject_id, code) is unique; deleting a row that
-- students have works for is an IntegrityError (students_assignments restricts it).
pub mod Applied
use submissions_checker.Prelude.{
  ℕ, ◌+◌, Bool, true, false, not, ◌&&◌, Option, none, some, List, [], ◌∷◌, ◌++◌, map, any, filter,
  max, Codes, codes_eq, lookup_code, if◌then◌else◌, is_some, opt_eq, ◌==◌,
}
use submissions_checker.CourseConfig.{
  Yaml, AssignmentEntry, AssignmentColumns, Field, diff_assignment, create_assignment,
  apply_assignment_fields,
}

abbrev pub Entries : Type 0 → Type 0
Entries V = List (Codes × AssignmentEntry V)

pub record ConfigApplyPlan (V : Type 0) : Type 0 where
  pub assignments_to_create : Entries V
  pub assignments_to_update : List (Codes × (AssignmentEntry V × List Field))
  pub assignments_to_delete : List Codes

-- `code not in prev_assignments_cfg`
unfoldable pub to_create : {V : Type 0} → Entries V → Entries V → Entries V
to_create [] prev = []
to_create ((code, a) ∷ new) prev =
    let rest = to_create new prev in
    if is_some (lookup_code code prev) then rest else (code, a) ∷ rest

unfoldable pub to_delete : {V : Type 0} → Entries V → Entries V → List Codes
to_delete new [] = []
to_delete new ((code, p) ∷ prev) =
    let rest = to_delete new prev in if is_some (lookup_code code new) then rest else code ∷ rest

unfoldable pub is_listed : Codes → List Codes → Bool
is_listed code codes = any (λ c. codes_eq code c) codes

module _ {V : Type 0} where
  unfoldable pub update_row :
      Codes
      → (AssignmentColumns V → AssignmentColumns V)
      → List (Codes × AssignmentColumns V)
      → List (Codes × AssignmentColumns V)
  update_row code f [] = []
  update_row code f ((c, row) ∷ rows) =
      if codes_eq code c then (c, f row) ∷ rows else (c, row) ∷ update_row code f rows

  unfoldable pub delete_row :
      Codes → List (Codes × AssignmentColumns V) → List (Codes × AssignmentColumns V)
  delete_row code [] = []
  delete_row code ((c, row) ∷ rows) =
      let rest = delete_row code rows in if codes_eq code c then rest else (c, row) ∷ rest

  -- `has_works` says of a code whether students_assignments has rows for it.
  unfoldable pub delete_all :
      (Codes → Bool)
      → List Codes
      → List (Codes × AssignmentColumns V)
      → Option (List (Codes × AssignmentColumns V))
  unfolding delete_row
  delete_all has_works [] rows = some rows
  delete_all has_works (code ∷ codes) rows =
      let rest = delete_all has_works codes (delete_row code rows) in
      if is_some (lookup_code code rows) && has_works code then none else rest

module _ (y : Yaml) where
  open y use {V}

  unfoldable pub to_update : Entries V → Entries V → List (Codes × (AssignmentEntry V × List Field))
  unfolding diff_assignment
  to_update [] prev = []
  to_update ((code, a) ∷ new) prev =
      let rest = to_update new prev in
      elim (lookup_code code prev) [
        | none ↦ rest
        | some p ↦ elim (diff_assignment y a p) [
          | [] ↦ rest
          | f ∷ fields ↦ (code, (a, f ∷ fields)) ∷ rest
        ]
      ]

  unfoldable pub compute_plan : Entries V → Entries V → ConfigApplyPlan V
  unfolding to_create to_update to_delete
  compute_plan new prev = record {
    assignments_to_create = to_create new prev;
    assignments_to_update = to_update new prev;
    assignments_to_delete = to_delete new prev;
  }

  unfoldable pub create_all :
      Entries V → List (Codes × AssignmentColumns V) → List (Codes × AssignmentColumns V)
  unfolding create_assignment
  create_all [] rows = rows
  create_all ((code, a) ∷ entries) rows =
      create_all entries (rows ++ (code, create_assignment y code a) ∷ [])

  unfoldable pub update_all :
      List (Codes × (AssignmentEntry V × List Field))
      → List (Codes × AssignmentColumns V)
      → List (Codes × AssignmentColumns V)
  unfolding update_row apply_assignment_fields
  update_all [] rows = rows
  update_all ((code, (a, fields)) ∷ updates) rows =
      update_all updates (update_row code (apply_assignment_fields y code a fields) rows)

  -- The rows of subjects_assignments that `_execute_plan` leaves; `none` is an IntegrityError, after
  -- which nothing is committed.
  unfoldable pub execute_plan :
      (Codes → Bool)
      → ConfigApplyPlan V
      → List (Codes × AssignmentColumns V)
      → Option (List (Codes × AssignmentColumns V))
  unfolding create_all update_all delete_all
  execute_plan has_works plan rows =
      delete_all has_works plan.assignments_to_delete
        (update_all plan.assignments_to_update (create_all plan.assignments_to_create rows))

-- ===== src/Grading/Rows.antt =====
-- The rows of students_assignments: services/squads.py `member_sa_ids`, and the grade that
-- services/grading.py `finalize_grade` writes.
use submissions_checker.Prelude.{
  ℕ, ◌+◌, Bool, ◌&&◌, Option, none, some, List, [], ◌∷◌, ◌++◌, find, modify_first, Codes, ◌==◌,
}

-- A row of students_assignments.
pub record StudentAssignment : Type 0 where
  pub id : ℕ
  pub student_id : ℕ
  pub subjects_assignment_id : ℕ
  pub grade : Option ℕ
  pub teacher_scores : Option (List (Codes × ℕ))

pub record AssignmentRows : Type 0 where
  pub rows : List StudentAssignment
  pub next_id : ℕ

unfoldable pub is_row : ℕ → ℕ → StudentAssignment → Bool
is_row student_id asg_id sa = sa.student_id == student_id && sa.subjects_assignment_id == asg_id

unfoldable pub add_row : ℕ → ℕ → AssignmentRows → AssignmentRows
add_row student_id asg_id db = record {
  rows =
      db.rows
      ++ record {
        id = db.next_id;
        student_id = student_id;
        subjects_assignment_id = asg_id;
        grade = none;
        teacher_scores = none;
      }
        ∷ [];
  next_id = db.next_id + 1;
}

-- services/squads.py `member_sa_ids`: the row of each member, added where there is none.
unfoldable pub member_sa_ids : List ℕ → ℕ → AssignmentRows → List ℕ × AssignmentRows
unfolding is_row add_row
member_sa_ids [] asg_id db = ([], db)
member_sa_ids (i ∷ members) asg_id db = elim (find (is_row i asg_id) db.rows) [
  | some sa ↦ let (ids, db') = member_sa_ids members asg_id db in (sa.id ∷ ids, db')
  | none ↦
      let (ids, db') = member_sa_ids members asg_id (add_row i asg_id db) in (db.next_id ∷ ids, db')
]

-- `row.grade = grade` on the row with this id.
unfoldable pub write_grade : ℕ → ℕ → List StudentAssignment → List StudentAssignment
write_grade grade sa_id rows =
    modify_first (λ sa. sa.id == sa_id) (λ sa. record sa { grade = some grade }) rows

unfoldable pub write_grades : ℕ → List ℕ → List StudentAssignment → List StudentAssignment
unfolding write_grade
write_grades grade [] rows = rows
write_grades grade (i ∷ ids) rows = write_grades grade ids (write_grade grade i rows)

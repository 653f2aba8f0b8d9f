-- ===== src/Gradebook/Cells.antt =====
-- services/gradebook.py `build_student_grid`: which row a cell shows.
use submissions_checker.Prelude.{
  ℕ, ◌≡◌, refl, ap, ◌∙◌, ◌&&◌, Option, none, some, List, [], ◌∷◌, arith, ◌==◌, ==_iff,
  if◌then◌else◌, Dict, lookup, insert, lookup-insert, any, contains, count,
}
use submissions_checker.Gradebook.{
  GridSourceRow, GridCell, cell_of, fill_cells, cells_by_student, grid_columns,
}

-- The last row of the student and the assignment, or else `before`.
abbrev pub last_cell : ℕ → ℕ → List GridSourceRow → Option GridCell → Option GridCell
last_cell s a [] before = before
last_cell s a (r ∷ rows) before =
    last_cell s a rows
      (if s == r.student_id && a == r.assignment_id then some (cell_of r) else before)

abbrev pub cell_at : ℕ → ℕ → Dict (Dict GridCell) → Option GridCell
cell_at s a d = elim (lookup s d) [ none ↦ none | some cells ↦ lookup a cells ]

cell_at-insert :
    (s a : ℕ) (r : GridSourceRow) (d : Dict (Dict GridCell)) (cells : Dict GridCell)
    → (elim (lookup r.student_id d) [ none ↦ [] | some c ↦ c ]) ≡ cells
    → cell_at s a (insert r.student_id (insert r.assignment_id (cell_of r) cells) d)
      ≡ (if s == r.student_id && a == r.assignment_id then some (cell_of r) else cell_at s a d)
cell_at-insert s a r d cells e = ground (
  arith,
  lookup-insert s r.student_id (insert r.assignment_id (cell_of r) cells) d,
  lookup-insert a r.assignment_id (cell_of r) cells,
  ==_iff s r.student_id,
)

fill_cells-last_cell :
    (s a : ℕ) (rows : List GridSourceRow) (d : Dict (Dict GridCell))
    → cell_at s a (fill_cells rows d) ≡ last_cell s a rows (cell_at s a d)
unfolding fill_cells
fill_cells-last_cell s a [] d = refl
fill_cells-last_cell s a (r ∷ rows) d =
    let cells : Dict GridCell = elim (lookup r.student_id d) [ none ↦ [] | some c ↦ c ] in
    fill_cells-last_cell s a rows (insert r.student_id (insert r.assignment_id (cell_of r) cells) d)
    ∙ ap (last_cell s a rows) (cell_at-insert s a r d cells refl)

-- The cell of a student and an assignment shows the last of the rows for the two, and there is no cell
-- where there is no such row.
pub cells_by_student-last_cell :
    (s a : ℕ) (rows : List GridSourceRow)
    → cell_at s a (cells_by_student rows) ≡ last_cell s a rows none
unfolding cells_by_student
cells_by_student-last_cell s a rows = fill_cells-last_cell s a rows []

-- The columns for some rows, after the assignments already seen, show each assignment that a row
-- has exactly once, unless it was seen, and none that no row has.
pub grid_columns-once :
    (a : ℕ) (rows : List GridSourceRow) (seen : List ℕ)
    → count (λ c. a == c) (grid_columns rows seen)
      ≡ (if contains a seen then 0 else if any (λ r. a == r.assignment_id) rows then 1 else 0)
unfolding grid_columns
grid_columns-once a [] seen = ground arith
grid_columns-once a (r ∷ rows) seen = ground (
  arith,
  ==_iff a r.assignment_id,
  grid_columns-once a rows seen,
  grid_columns-once a rows (r.assignment_id ∷ seen),
)

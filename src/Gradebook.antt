-- ===== src/Gradebook.antt =====
-- services/gradebook.py, the part without a database: the status of a cell, the cached figures of a
-- subject and the grid of students.
pub mod Figures
pub mod Cells
mod Examples
use submissions_checker.Prelude.{
  ℕ, ◌+◌, ◌*◌, ◌≤◌, ◌<◌, ◌≡◌, Bool, true, false, not, ◌&&◌, ◌||◌, Option, none, some, List, [], ◌∷◌,
  ◌++◌, map, filter, count, sum_by, length, contains, leb, ltb, ◌==◌, if◌then◌else◌, is_some,
  or_zero, Dict, lookup, insert, Codes,
}
use submissions_checker.Submission.{SubmissionStatus, completed, failed}

pub data CellStatus : Type 0 where
  passed failing pending waiting_partner not_submitted : CellStatus

pub data Severity : Type 0 where
  high medium : Severity

-- `_TERMINAL_STATUSES`
unfoldable pub is_final : SubmissionStatus → Bool
is_final completed = true
is_final failed = true
is_final _ = false

-- `submission_status is not None and submission_status not in _TERMINAL_STATUSES`
unfoldable pub mid_pipeline : Option SubmissionStatus → Bool
mid_pipeline none = false
mid_pipeline (some st) = not (is_final st)

unfoldable pub cell_status : Option ℕ → ℕ → Option SubmissionStatus → CellStatus
cell_status (some grade) min_grade st = if leb min_grade grade then passed else failing
cell_status none min_grade st = if mid_pipeline st then pending else not_submitted

unfoldable pub severity_for : Bool → ℕ → ℕ → Option Severity
severity_for force_fail tab_switch window_blur =
    let combined = tab_switch + window_blur in
    if force_fail || leb 3 combined
    then some high
    else if leb 1 combined && leb combined 2
    then some medium
    else none

-- The fields that the figures read.
pub record RosterRow : Type 0 where
  pub student_id : ℕ
  pub assignment_id : ℕ
  pub min_grade : ℕ
  pub max_grade : ℕ
  pub grade : Option ℕ
  pub submission_status : Option SubmissionStatus

pub record IntegrityRow : Type 0 where
  pub student_id : ℕ
  pub assignment_id : ℕ
  pub severity : Option Severity
  pub duration_anomalous : Bool
  pub other_events : ℕ

-- The field `flagged` as `fetch_integrity_rows` fills it.
unfoldable pub flagged : IntegrityRow → Bool
flagged r = is_some r.severity || r.duration_anomalous || ltb 0 r.other_events

-- `round(100 * a / b, 1)` in Python's floats, and the literal 0.0: a share of a whole is at most a
-- hundred.
pub record Shares : Type 1 where
  pub F : Type 0
  pub leb_F : F → F → Bool
  pub zero_F : F
  pub hundred : F
  pub share : ℕ → ℕ → F
  pub share_bound : (a b : ℕ) → 0 < b → a ≤ b → leb_F (share a b) hundred ≡ true
  pub zero_bound : leb_F zero_F hundred ≡ true

pub record CachedSubjectStats {ℓ} (F : Type ℓ) : Type ℓ where
  pub pending_review_count : ℕ
  pub average_mark_pct : Option F
  pub pass_pct : F
  pub cheating_pct : Option F

-- `[... for r in roster_rows if r.grade is not None]`, summed.
unfoldable pub graded_max : RosterRow → ℕ
graded_max r = if is_some r.grade then r.max_grade else 0

unfoldable pub is_pass : RosterRow → Bool
is_pass r = elim r.grade [ none ↦ false | some g ↦ leb r.min_grade g ]

unfoldable pub awaits_review : RosterRow → Bool
awaits_review r = not (is_some r.grade) && mid_pipeline r.submission_status

module _ (sh : Shares) where
  open sh use {F, zero_F, share}

  unfoldable pub compute_cached_stats : List RosterRow → List IntegrityRow → CachedSubjectStats F
  compute_cached_stats roster integrity =
      let graded_max_sum = sum_by graded_max roster in
      let graded_sum = sum_by (λ r. or_zero r.grade) roster in
      let total_pairs = length roster in
      let total_attempts = length integrity in
      record {
        pending_review_count = count awaits_review roster;
        average_mark_pct =
            if ltb 0 graded_max_sum then some (share graded_sum graded_max_sum) else none;
        pass_pct = if ltb 0 total_pairs then share (count is_pass roster) total_pairs else zero_F;
        cheating_pct =
            if ltb 0 total_attempts
            then some (share (count flagged integrity) total_attempts)
            else none;
      }

-- The fields of a source row that decide the grid; the texts of the row are left out.
pub record GridSourceRow : Type 0 where
  pub student_id : ℕ
  pub assignment_id : ℕ
  pub min_grade : ℕ
  pub grade : Option ℕ
  pub submission_status : Option SubmissionStatus
  pub waiting : Bool

pub record GridCell : Type 0 where
  pub status : CellStatus
  pub grade : Option ℕ

unfoldable pub cell_of : GridSourceRow → GridCell
cell_of r = record {
  status =
      if r.waiting then waiting_partner else cell_status r.grade r.min_grade r.submission_status;
  grade = r.grade;
}

-- The loop that fills `cells_by_student`.
unfoldable pub fill_cells : List GridSourceRow → Dict (Dict GridCell) → Dict (Dict GridCell)
fill_cells [] d = d
fill_cells (r ∷ rows) d =
    let cells : Dict GridCell = elim (lookup r.student_id d) [ none ↦ [] | some c ↦ c ] in
    fill_cells rows (insert r.student_id (insert r.assignment_id (cell_of r) cells) d)

unfoldable pub cells_by_student : List GridSourceRow → Dict (Dict GridCell)
cells_by_student rows = fill_cells rows []

-- The loop over `columns`, with the assignments seen so far.
unfoldable pub grid_columns : List GridSourceRow → List ℕ → List ℕ
grid_columns [] seen = []
grid_columns (r ∷ rows) seen =
    let rest = grid_columns rows seen in
    let shown = grid_columns rows (r.assignment_id ∷ seen) in
    if contains r.assignment_id seen then rest else r.assignment_id ∷ shown

-- `sum(grades) if grades else None` over the cells of a student.
unfoldable pub total_grade : Dict GridCell → Option ℕ
total_grade [] = none
total_grade ((i, c) ∷ cells) =
    let rest = total_grade cells in elim c.grade [ none ↦ rest | some g ↦ some (g + or_zero rest) ]

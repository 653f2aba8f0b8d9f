-- ===== src/Gradebook/Examples.antt =====
-- Two students and two assignments; one cell has two rows.
use submissions_checker.Prelude.{
  ℕ, ◌*◌, ◌≤◌, ◌<◌, ◌≡◌, refl, Bool, true, false, Option, none, some, List, [], ◌∷◌, arith, leb,
  length, count, sum_by, or_zero, ◌-◌,
}
use submissions_checker.Submission.{completed, quiz_sent, failed}
use submissions_checker.Gradebook.{
  pending, passed, is_final, mid_pipeline, medium, severity_for, RosterRow, IntegrityRow, flagged,
  Shares, graded_max, is_pass, awaits_review, compute_cached_stats, GridSourceRow, cell_of,
  fill_cells, cells_by_student, total_grade,
}
use submissions_checker.Gradebook.Figures.{
  rows_with, share_of, or_zero_share, graded_rows, is_clean, InRange, at_most_hundred,
  compute_cached_stats-shares,
}

-- Shares as pairs of a part and a whole.
abbrev Share : Type 0
Share = ℕ × ℕ

abbrev leb_share : Share → Share → Bool
leb_share (a, b) (c, d) = leb (a * d) (c * b)

share_bound : (a b : ℕ) → 0 < b → a ≤ b → leb_share (a, b) (1, 1) ≡ true
share_bound a b p h = ground arith

abbrev shares : Shares
shares = record {
  F = Share;
  leb_F = leb_share;
  zero_F = (0, 1);
  hundred = (1, 1);
  share = λ a b. (a, b);
  share_bound = share_bound;
  zero_bound = refl;
}

abbrev roster : List RosterRow
roster =
    record {
      student_id = 1;
      assignment_id = 7;
      min_grade = 3;
      max_grade = 5;
      grade = some 4;
      submission_status = some completed;
    }
    ∷ record {
      student_id = 2;
      assignment_id = 7;
      min_grade = 3;
      max_grade = 5;
      grade = none;
      submission_status = some quiz_sent;
    }
    ∷ record {
      student_id = 3;
      assignment_id = 7;
      min_grade = 3;
      max_grade = 5;
      grade = none;
      submission_status = some failed;
    }
    ∷ []

abbrev integrity : List IntegrityRow
integrity =
    record {
      student_id = 1;
      assignment_id = 7;
      severity = some medium;
      duration_anomalous = false;
      other_events = 0;
    }
    ∷ []

figures : compute_cached_stats shares roster integrity ≡ record {
  pending_review_count = 1;
  average_mark_pct = some (4, 5);
  pass_pct = (1, 3);
  cheating_pct = some (1, 1);
}
unfolding compute_cached_stats graded_max is_pass awaits_review mid_pipeline is_final flagged
figures = refl

roster-InRange : InRange roster
roster-InRange = ground arith

compute_cached_stats-shares_example :
    let stats = compute_cached_stats shares roster integrity in
    (stats.pending_review_count ≡ rows_with pending roster)
    × (stats.pass_pct
        ≡ or_zero_share shares (share_of shares (rows_with passed roster) (length roster)))
    × (stats.average_mark_pct
        ≡ share_of shares
            (sum_by (λ r. or_zero r.grade) (graded_rows roster))
            (sum_by (λ r. r.max_grade) (graded_rows roster)))
    × (stats.cheating_pct
        ≡ share_of shares (length integrity - count is_clean integrity) (length integrity))
    × (leb_share stats.pass_pct (1, 1) ≡ true)
    × (at_most_hundred shares stats.average_mark_pct ≡ true)
    × (at_most_hundred shares stats.cheating_pct ≡ true)
compute_cached_stats-shares_example =
    compute_cached_stats-shares shares roster integrity roster-InRange

severities : severity_for false 1 1 ≡ some medium
unfolding severity_for
severities = refl

abbrev source : ℕ → Option ℕ → GridSourceRow
source a g = record {
  student_id = 1;
  assignment_id = a;
  min_grade = 3;
  grade = g;
  submission_status = some quiz_sent;
  waiting = false;
}

abbrev rows : List GridSourceRow
rows = source 7 none ∷ source 8 (some 2) ∷ source 7 (some 4) ∷ []

totals : (elim (cells_by_student rows) [ [] ↦ none | (s, cells) ∷ _ ↦ total_grade cells ]) ≡ some 6
unfolding cells_by_student fill_cells cell_of total_grade
totals = refl

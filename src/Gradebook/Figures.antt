-- ===== src/Gradebook/Figures.antt =====
-- services/gradebook.py: the figures of a subject, counted from the status of each row of its roster.
use submissions_checker.Prelude.{
  ℕ, ◌+◌, ◌≤◌, ◌≡◌, refl, Bool, true, false, Option, none, some, List, [], ◌∷◌, arith, count,
  sum_by, length, count-le-length, All, or_zero, filter, is_some, not, ◌&&◌, ◌==◌, ◌-◌, zero, suc,
}
use submissions_checker.Gradebook.{
  CellStatus, passed, failing, pending, waiting_partner, not_submitted, cell_status, RosterRow,
  IntegrityRow, flagged, Shares, graded_max, is_pass, awaits_review, compute_cached_stats,
}

abbrev pub same_status : CellStatus → CellStatus → Bool
same_status passed passed = true
same_status failing failing = true
same_status pending pending = true
same_status waiting_partner waiting_partner = true
same_status not_submitted not_submitted = true
same_status _ _ = false

-- The rows whose own grade and submission give this status.
abbrev pub rows_with : CellStatus → List RosterRow → ℕ
rows_with st rows =
    count (λ r. same_status st (cell_status r.grade r.min_grade r.submission_status)) rows

awaits_review-pending : (rows : List RosterRow) → count awaits_review rows ≡ rows_with pending rows
unfolding awaits_review cell_status
awaits_review-pending [] = refl
awaits_review-pending (r ∷ rows) = ground (arith, awaits_review-pending rows)

is_pass-passed : (rows : List RosterRow) → count is_pass rows ≡ rows_with passed rows
unfolding is_pass cell_status
is_pass-passed [] = refl
is_pass-passed (r ∷ rows) = ground (arith, is_pass-passed rows)

-- Every row of the roster is in exactly one of four states: the numbers of rows that are passed,
-- failed, pending and not submitted add up to the number of rows.
pub rows_with-partition :
    (rows : List RosterRow)
    → rows_with passed rows
        + rows_with failing rows
        + rows_with pending rows
        + rows_with not_submitted rows
      ≡ length rows
unfolding cell_status
rows_with-partition [] = refl
rows_with-partition (r ∷ rows) = ground (arith, rows_with-partition rows)

-- A grade is at most the maximum of its assignment.
abbrev pub InRange : List RosterRow → Type 0
InRange rows = All (λ r. or_zero r.grade ≤ r.max_grade) rows

graded_sum-le :
    (rows : List RosterRow)
    → InRange rows
    → sum_by (λ r. or_zero r.grade) rows ≤ sum_by graded_max rows
unfolding graded_max
graded_sum-le [] h = ground arith
graded_sum-le (r ∷ rows) h = ground (arith, h.0, graded_sum-le rows h.1)

-- The rows that have a grade.
abbrev pub graded_rows : List RosterRow → List RosterRow
graded_rows rows = filter (λ r. is_some r.grade) rows

grades-graded_rows :
    (rows : List RosterRow)
    → sum_by (λ r. or_zero r.grade) rows ≡ sum_by (λ r. or_zero r.grade) (graded_rows rows)
grades-graded_rows [] = refl
grades-graded_rows (r ∷ rows) = ground (arith, grades-graded_rows rows)

maxima-graded_rows :
    (rows : List RosterRow) → sum_by graded_max rows ≡ sum_by (λ r. r.max_grade) (graded_rows rows)
unfolding graded_max
maxima-graded_rows [] = refl
maxima-graded_rows (r ∷ rows) = ground (arith, maxima-graded_rows rows)

-- Nothing that the quiz recorded speaks against the attempt.
abbrev pub is_clean : IntegrityRow → Bool
is_clean r = not (is_some r.severity) && not r.duration_anomalous && r.other_events == 0

flagged-is_clean :
    (rows : List IntegrityRow) → count flagged rows + count is_clean rows ≡ length rows
unfolding flagged
flagged-is_clean [] = refl
flagged-is_clean (r ∷ rows) = ground (arith, flagged-is_clean rows)

module _ (sh : Shares) where
  open sh use {F, leb_F, hundred, share, zero_F, share_bound, zero_bound}

  abbrev pub at_most_hundred : Option F → Bool
  at_most_hundred none = true
  at_most_hundred (some p) = leb_F p hundred

  -- A share of a whole that is not empty.
  abbrev pub share_of : ℕ → ℕ → Option F
  share_of a b = elim b [ zero ↦ none | suc n ↦ some (share a (suc n)) ]

  abbrev pub or_zero_share : Option F → F
  or_zero_share none = zero_F
  or_zero_share (some p) = p

  -- The figures of a subject whose grades are within their assignments' maxima. The submissions that wait
  -- are the pending rows; the passes are the share of the passed rows among all, or zero without a row;
  -- the average is the share that the grades of the graded rows have of the maxima of the same rows; and
  -- the cheating is the share of the attempts that are not clean; there is no figure where the whole is
  -- zero. None of the percentages is above a hundred.
  pub compute_cached_stats-shares :
      (roster : List RosterRow) (integrity : List IntegrityRow)
      → InRange roster
      → let stats = compute_cached_stats sh roster integrity in
        (stats.pending_review_count ≡ rows_with pending roster)
        × (stats.pass_pct ≡ or_zero_share (share_of (rows_with passed roster) (length roster)))
        × (stats.average_mark_pct
            ≡ share_of
                (sum_by (λ r. or_zero r.grade) (graded_rows roster))
                (sum_by (λ r. r.max_grade) (graded_rows roster)))
        × (stats.cheating_pct
            ≡ share_of (length integrity - count is_clean integrity) (length integrity))
        × (leb_F stats.pass_pct hundred ≡ true)
        × (at_most_hundred stats.average_mark_pct ≡ true)
        × (at_most_hundred stats.cheating_pct ≡ true)
  unfolding compute_cached_stats
  compute_cached_stats-shares roster integrity h = (
    awaits_review-pending roster,
    ground (arith, is_pass-passed roster),
    ground (arith, grades-graded_rows roster, maxima-graded_rows roster),
    ground (arith, flagged-is_clean integrity),
    ground (
      arith,
      zero_bound,
      share_bound (count is_pass roster) (length roster),
      count-le-length is_pass roster,
    ),
    ground (
      arith,
      share_bound (sum_by (λ r. or_zero r.grade) roster) (sum_by graded_max roster),
      graded_sum-le roster h,
    ),
    ground (
      arith,
      share_bound (count flagged integrity) (length integrity),
      count-le-length flagged integrity,
    ),
  )

-- ===== src/Grading/Grade.antt =====
-- The grade of services/teacher_scores.py under a configuration that `validate_assignment` accepts.
use submissions_checker.Prelude.{
  ℕ, ◌+◌, ◌≤◌, ◌≡◌, refl, Bool, true, Option, none, List, [], ◌∷◌, arith, All, sum_by, Codes,
}
use submissions_checker.Grading.TeacherScores.{
  AssignmentConfig, Criterion, Characters, points, validate_assignment, natural_of, criteria,
  parse_form, points_of, Percent, quiz_points_for, compute,
}
use submissions_checker.Grading.Points.{validate_assignment-AddsUp}
use submissions_checker.Grading.Entry.{Stored, parse_form-Stored}

abbrev Within : List (Codes × ℕ) → List Criterion → Type 0
Within o crits = All (λ c. points_of o c ≤ c.max_points) crits

Within-sum :
    (o : List (Codes × ℕ)) (crits : List Criterion)
    → Within o crits
    → sum_by (points_of o) crits ≤ sum_by (λ c. c.max_points) crits
Within-sum o [] h = ground arith
Within-sum o (c ∷ crits) (hc, h) = ground (arith, Within-sum o crits h)

full-sum :
    (o : List (Codes × ℕ)) (crits : List Criterion)
    → All (λ c. points_of o c ≡ c.max_points) crits
    → sum_by (points_of o) crits ≡ sum_by (λ c. c.max_points) crits
full-sum o [] h = refl
full-sum o (c ∷ crits) (hc, h) = ground (arith, full-sum o crits h)

module _ (pc : Percent) where
  open pc use {F, leb_F, hundred, millionths, millionths_mono, millionths_hundred}

  quiz_points_for-le :
      (q : ℕ) (pct : F) (up : Bool) → leb_F pct hundred ≡ true → quiz_points_for pc q pct up ≤ q
  unfolding quiz_points_for
  quiz_points_for-le q pct up h = ground (arith, millionths_mono pct q h, millionths_hundred q)

  quiz_points_for-hundred : (q : ℕ) (up : Bool) → quiz_points_for pc q hundred up ≡ q
  unfolding quiz_points_for
  quiz_points_for-hundred q up = ground (arith, millionths_hundred q)

  -- Where `validate_assignment` accepts the configuration, min_grade is at most max_grade, the
  -- quiz percentage is at most a hundred and no criterion has more points than its maximum,
  -- `compute` clamps nothing: the grade is min_grade with the quiz points and the teacher points,
  -- it is at most max_grade, and the quiz points are at most their maximum.
  pub compute-sum :
      (cfg : AssignmentConfig) (pct : F) (o : List (Codes × ℕ)) (up : Bool)
      → validate_assignment cfg ≡ none
      → cfg.min_grade ≤ cfg.max_grade
      → leb_F pct hundred ≡ true
      → All (λ c. points_of o c ≤ c.max_points) (criteria cfg)
      → let b = compute pc cfg pct o up in
        (b.grade ≡ cfg.min_grade + b.quiz_awarded + sum_by (points_of o) (criteria cfg))
        × (b.grade ≤ cfg.max_grade)
        × (b.quiz_awarded ≤ b.quiz_max)
  unfolding compute
  compute-sum cfg pct o up ok lo h w =
      let (s, d) = validate_assignment-AddsUp cfg ok in
      ground (
        arith,
        s,
        Within-sum o (criteria cfg) w,
        quiz_points_for-le (natural_of cfg.quiz_points) pct up h,
      )

  -- Where `validate_assignment` accepts the configuration and min_grade is at most max_grade, a
  -- quiz at a hundred per cent and every criterion at its maximum give exactly max_grade, however
  -- the quiz share is rounded.
  pub compute-full :
      (cfg : AssignmentConfig) (o : List (Codes × ℕ)) (up : Bool)
      → validate_assignment cfg ≡ none
      → cfg.min_grade ≤ cfg.max_grade
      → All (λ c. points_of o c ≡ c.max_points) (criteria cfg)
      → (compute pc cfg hundred o up).grade ≡ cfg.max_grade
  unfolding compute
  compute-full cfg o up ok lo w =
      let (s, d) = validate_assignment-AddsUp cfg ok in
      ground (
        arith,
        s,
        full-sum o (criteria cfg) w,
        quiz_points_for-hundred (natural_of cfg.quiz_points) up,
      )

  points_within :
      (chars : Characters) (form : Codes → Option Codes) (o : List (Codes × ℕ))
      (crits : List Criterion)
      → All (Stored chars form o) crits
      → All (λ c. points_of o c ≤ c.max_points) crits
  points_within chars form o [] h = tt
  points_within chars form o (c ∷ crits) (hc, h) = (hc.1, points_within chars form o crits h)

  -- Where `validate_assignment` accepts the configuration, min_grade is at most max_grade and the
  -- quiz percentage is at most a hundred, the points that `parse_form` reads for its criteria
  -- never take the grade over max_grade: it is min_grade with the quiz points and the points
  -- typed, and the quiz points are at most their maximum.
  pub compute-parse_form :
      (cfg : AssignmentConfig) (pct : F) (o : List (Codes × ℕ)) (up : Bool) (chars : Characters)
      (form : Codes → Option Codes)
      → validate_assignment cfg ≡ none
      → cfg.min_grade ≤ cfg.max_grade
      → leb_F pct hundred ≡ true
      → parse_form chars (criteria cfg) form ≡ points o
      → let b = compute pc cfg pct o up in
        (b.grade ≡ cfg.min_grade + b.quiz_awarded + sum_by (points_of o) (criteria cfg))
        × (b.grade ≤ cfg.max_grade)
        × (b.quiz_awarded ≤ b.quiz_max)
  compute-parse_form cfg pct o up chars form ok lo h e = compute-sum cfg pct o up ok lo h (
      points_within chars form o (criteria cfg)
        (parse_form-Stored chars (criteria cfg) form o (validate_assignment-AddsUp cfg ok).1 e))

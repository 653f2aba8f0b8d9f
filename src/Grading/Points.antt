-- ===== src/Grading/Points.antt =====
-- The grade of services/teacher_scores.py: under a validated configuration the points add up to the
-- grade range, so that the grade is the plain sum.
use submissions_checker.Prelude.{
  ℕ, ◌+◌, ◌-◌, ◌<◌, ◌≡◌, refl, Bool, true, false, Option, none, some, List, [], ◌∷◌, arith, All,
  map, sum_by, Codes, codes_eq, codes_eq_iff, codes_eq_refl, Option-cases, inl, inr,
}
use submissions_checker.Grading.TeacherScores.{
  Scalar, natural, text, RawCriterion, AssignmentConfig, Criterion, Checked, refused, total_of,
  check_max, check_criteria, check_sum, check_quiz_points, validate_assignment, natural_of, key_of,
  criterion_of, criteria, seen_key,
}

-- What an entry that passes the checks looks like.
record Passes (item : RawCriterion) (items : List RawCriterion) (seen : List Codes) (total : ℕ)
    (t : ℕ) : Type 0 where
  key : Codes
  n : ℕ
  key_is : item.key ≡ text key
  max_is : item.max_points ≡ natural n
  positive : 0 < n
  fresh : seen_key key seen ≡ false
  rest : check_criteria items (key ∷ seen) (total + n) ≡ total_of t

checked_fields-Passes :
    (key mx : Scalar) (o : Bool) (items : List RawCriterion) (seen : List Codes) (total t : ℕ)
    → let item : RawCriterion = record { key = key; max_points = mx; optional = o } in
      check_criteria (item ∷ items) seen total ≡ total_of t → Passes item items seen total t
unfolding check_criteria check_max
checked_fields-Passes (text k) (natural n) o items seen total t e = record {
  key = k;
  n = n;
  key_is = refl;
  max_is = refl;
  positive = ground arith;
  fresh = ground arith;
  rest = ground arith;
}
checked_fields-Passes (text k) mx o items seen total t e = absurd (ground arith)
checked_fields-Passes key mx o items seen total t e = absurd (ground arith)

check_criteria-Passes :
    (item : RawCriterion) (items : List RawCriterion) (seen : List Codes) (total t : ℕ)
    → check_criteria (item ∷ items) seen total ≡ total_of t
    → Passes item items seen total t
check_criteria-Passes item items seen total t e =
    checked_fields-Passes item.key item.max_points item.optional items seen total t e

-- Every entry adds its maximum.
check_criteria-total :
    (items : List RawCriterion) (seen : List Codes) (total t : ℕ)
    → check_criteria items seen total ≡ total_of t
    → t ≡ total + sum_by (λ c. c.max_points) (map criterion_of items)
unfolding criterion_of natural_of
check_criteria-total [] seen total t e = unfold check_criteria in ground arith
check_criteria-total (item ∷ items) seen total t e =
    let p = check_criteria-Passes item items seen total t e in
    ground (arith, p.max_is, check_criteria-total items (p.key ∷ seen) (total + p.n) t p.rest)

check_criteria-unseen :
    (k : Codes) (items : List RawCriterion) (seen : List Codes) (total t : ℕ)
    → check_criteria items seen total ≡ total_of t
    → seen_key k seen ≡ true
    → All (λ c. codes_eq k c.key ≡ false) (map criterion_of items)
unfolding criterion_of key_of seen_key
check_criteria-unseen k [] seen total t e h = tt
check_criteria-unseen k (item ∷ items) seen total t e h =
    let p = check_criteria-Passes item items seen total t e in
    (
      unseen_key p,
      check_criteria-unseen k items (p.key ∷ seen) (total + p.n) t p.rest (ground arith),
    )
  where
    unseen_key : Passes item items seen total t → codes_eq k (criterion_of item).key ≡ false
    unseen_key p = ground (arith, p.key_is, p.fresh, codes_eq_iff k p.key)

-- The keys of the criteria are all different.
abbrev pub DistinctKeys : List Criterion → Type 0
DistinctKeys [] = Unit
DistinctKeys (c ∷ crits) = All (λ d. codes_eq c.key d.key ≡ false) crits × DistinctKeys crits

check_criteria-DistinctKeys :
    (items : List RawCriterion) (seen : List Codes) (total t : ℕ)
    → check_criteria items seen total ≡ total_of t
    → DistinctKeys (map criterion_of items)
unfolding criterion_of key_of seen_key
check_criteria-DistinctKeys [] seen total t e = tt
check_criteria-DistinctKeys (item ∷ items) seen total t e =
    let p = check_criteria-Passes item items seen total t e in
    (
      rw p.key_is (
          check_criteria-unseen p.key items (p.key ∷ seen) (total + p.n) t p.rest
            (ground (arith, codes_eq_refl p.key))),
      check_criteria-DistinctKeys items (p.key ∷ seen) (total + p.n) t p.rest,
    )

-- What `validate_assignment` promises of the criteria that are read after it.
abbrev pub AddsUp : AssignmentConfig → Type 0
AddsUp cfg =
    (natural_of cfg.quiz_points + sum_by (λ c. c.max_points) (criteria cfg)
      ≡ cfg.max_grade - cfg.min_grade)
    × DistinctKeys (criteria cfg)

check_sum-total :
    (q span : ℕ) (r : Checked)
    → check_sum q span r ≡ none
    → (t : ℕ) × (r ≡ total_of t) × (q + t ≡ span)
unfolding check_sum
check_sum-total q span (refused e) h = absurd (ground arith)
check_sum-total q span (total_of t) h = (t, refl, ground arith)

check_quiz_points-natural_of :
    (s : Scalar) (q : ℕ) → check_quiz_points s ≡ some q → natural_of s ≡ q
unfolding check_quiz_points natural_of
check_quiz_points-natural_of (natural n) q e = ground arith
check_quiz_points-natural_of s q e = absurd (ground arith)

criteria_add_up :
    (h : Bool) (qp : Scalar) (q : ℕ) (raws : Option (List RawCriterion)) (lo hi : ℕ)
    → let cfg : AssignmentConfig = record {
      has_questions = h;
      quiz_points = qp;
      teacher_criteria = raws;
      min_grade = lo;
      max_grade = hi;
    } in
      check_quiz_points qp ≡ some q → validate_assignment cfg ≡ none → AddsUp cfg
unfolding validate_assignment criteria
criteria_add_up false qp q raws lo hi eq e = absurd (ground arith)
criteria_add_up true qp q none lo hi eq e = absurd (ground (arith, eq))
criteria_add_up true qp q (some []) lo hi eq e = absurd (ground (arith, eq))
criteria_add_up true qp q (some (item ∷ items)) lo hi eq e =
    let (t, et, es) =
      check_sum-total q (hi - lo) (check_criteria (item ∷ items) [] 0) (ground (arith, eq)) in
    (
      ground (
        arith,
        es,
        check_criteria-total (item ∷ items) [] 0 t et,
        check_quiz_points-natural_of qp q eq,
      ),
      check_criteria-DistinctKeys (item ∷ items) [] 0 t et,
    )

pub validate_assignment-AddsUp :
    (cfg : AssignmentConfig) → validate_assignment cfg ≡ none → AddsUp cfg
unfolding validate_assignment
validate_assignment-AddsUp cfg e = elim (Option-cases (check_quiz_points cfg.quiz_points)) [
  | inl n ↦ absurd (ground (arith, n))
  | inr (q, eq) ↦
      criteria_add_up cfg.has_questions cfg.quiz_points q cfg.teacher_criteria cfg.min_grade
        cfg.max_grade eq e
]

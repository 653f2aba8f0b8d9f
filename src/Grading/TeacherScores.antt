-- ===== src/Grading/TeacherScores.antt =====
-- services/teacher_scores.py: the grade rules of `review_mode: quiz_and_teacher_scores`. Grades and
-- points are naturals: the database wants 0 <= min_grade <= max_grade
-- (ck_subjects_assignments_grade_range), and what the configuration may hold instead is kept in
-- `Scalar`.
use submissions_checker.Prelude.{
  ℕ, ◌≡◌, ◌+◌, ◌-◌, ◌*◌, ◌/◌, ◌≤◌, min, max, Bool, true, false, not, ◌&&◌, ◌||◌, Option, none, some,
  List, [], ◌∷◌, leb, ltb, ◌==◌, if◌then◌else◌, or_zero, is_some, all, map, length, sum_by, reverse,
  Codes, codes_eq, lookup_code, insert_code,
}

-- A value of the configuration, as far as `_is_int` and `isinstance(_, str)` tell values apart.
-- `negative n` is -(n + 1).
pub data Scalar : Type 0 where
  missing other : Scalar
  boolean : Bool → Scalar
  natural : ℕ → Scalar
  negative : ℕ → Scalar
  text : Codes → Scalar

unfoldable pub is_int : Scalar → Bool
is_int (natural n) = true
is_int (negative n) = true
is_int _ = false

-- One entry of `teacher_criteria` as it stands in the configuration.
pub record RawCriterion : Type 0 where
  pub key : Scalar
  pub max_points : Scalar
  pub optional : Bool

-- `quiz_points` and `teacher_criteria` of an assignment's `grading`, with what else decides:
-- `teacher_criteria` is `none` where it is not a list.
pub record AssignmentConfig : Type 0 where
  pub has_questions : Bool
  pub quiz_points : Scalar
  pub teacher_criteria : Option (List RawCriterion)
  pub min_grade : ℕ
  pub max_grade : ℕ

pub record Criterion : Type 0 where
  pub key : Codes
  pub max_points : ℕ
  pub optional : Bool

pub data ConfigError : Type 0 where
  no_questions bad_quiz_points no_criteria bad_key duplicate_key bad_max wrong_sum : ConfigError

-- `[a-z0-9_]`
unfoldable pub key_char : ℕ → Bool
key_char c = (leb b'a' c && leb c b'z') || (leb b'0' c && leb c b'9') || c == b'_'

-- `^[a-z0-9_]+$` under `re.match`: the `$` also fits before a final line feed.
unfoldable pub key_rest : Codes → Bool
key_rest [] = true
key_rest (c ∷ s) =
    if key_char c then key_rest s else c == 10 && (elim s [ [] ↦ true | _ ∷ _ ↦ false ])

unfoldable pub key_matches : Codes → Bool
key_matches [] = false
key_matches (c ∷ s) = key_char c && key_rest s

unfoldable pub seen_key : Codes → List Codes → Bool
seen_key k [] = false
seen_key k (j ∷ js) = codes_eq k j || seen_key k js

pub data Checked : Type 0 where
  refused : ConfigError → Checked
  total_of : ℕ → Checked

-- One round of the loop of `validate_assignment`: the checks on one entry, and what it adds to
-- `total`. The key goes to `seen` before `max` is looked at, which no later check can tell.
unfoldable pub check_max : Scalar → ℕ → Checked
check_max (natural n) total = if n == 0 then refused bad_max else total_of (total + n)
check_max _ total = refused bad_max

unfoldable pub check_criteria : List RawCriterion → List Codes → ℕ → Checked
check_criteria [] seen total = total_of total
check_criteria (item ∷ items) seen total = elim item.key [
  | text k ↦
      let next = check_max item.max_points total in
      let rest = λ (t : ℕ). check_criteria items (k ∷ seen) t in
      if not (key_matches k)
      then refused bad_key
      else if seen_key k seen
      then refused duplicate_key
      else elim next [ refused e ↦ refused e | total_of t ↦ rest t ]
  | _ ↦ refused bad_key
]

-- `none` where the function returns. The comparison with `max_grade - min_grade` may be made on
-- naturals: the points add up to 1 at least.
unfoldable pub check_sum : ℕ → ℕ → Checked → Option ConfigError
check_sum quiz_points span (refused e) = some e
check_sum quiz_points span (total_of t) = if quiz_points + t == span then none else some wrong_sum

unfoldable pub check_quiz_points : Scalar → Option ℕ
check_quiz_points (natural n) = some n
check_quiz_points _ = none

unfoldable pub validate_assignment : AssignmentConfig → Option ConfigError
validate_assignment cfg =
    if not cfg.has_questions then some no_questions else elim (check_quiz_points cfg.quiz_points) [
      | none ↦ some bad_quiz_points
      | some q ↦ elim cfg.teacher_criteria [
        | none ↦ some no_criteria
        | some [] ↦ some no_criteria
        | some (item ∷ items) ↦
            check_sum q (cfg.max_grade - cfg.min_grade) (check_criteria (item ∷ items) [] 0)
      ]
    ]

-- `int(raw["max"])` and `str(raw["key"])` of a validated entry.
unfoldable pub natural_of : Scalar → ℕ
natural_of (natural n) = n
natural_of _ = 0

unfoldable pub key_of : Scalar → Codes
key_of (text k) = k
key_of _ = []

unfoldable pub criterion_of : RawCriterion → Criterion
criterion_of raw = record {
  key = key_of raw.key;
  max_points = natural_of raw.max_points;
  optional = raw.optional;
}

-- `criteria`, which assumes that the configuration has been validated.
unfoldable pub criteria : AssignmentConfig → List Criterion
criteria cfg = elim cfg.teacher_criteria [ none ↦ [] | some raws ↦ map criterion_of raws ]

-- Python's `str.isspace`, `str.isdigit` and the value of a decimal digit, on one character. A digit
-- such as the superscript two passes `isdigit` and has no decimal value.
pub record Characters : Type 0 where
  pub is_space : ℕ → Bool
  pub is_digit : ℕ → Bool
  pub decimal : ℕ → Option ℕ

pub data Parsed : Type 0 where
  points : List (Codes × ℕ) → Parsed
  score_error : Parsed
  value_error : Parsed

-- One field of the form: left out, a value, or a raise.
pub data Field : Type 0 where
  empty : Field
  value : ℕ → Field
  not_whole too_large not_a_number : Field

module _ (chars : Characters) where
  open chars use {is_space, is_digit, decimal}

  unfoldable pub drop_space : Codes → Codes
  drop_space [] = []
  drop_space (c ∷ s) = if is_space c then drop_space s else c ∷ s

  unfoldable pub strip : Codes → Codes
  strip s = reverse (drop_space (reverse (drop_space s)))

  -- The value of decimal digits, after those that make `acc`.
  unfoldable pub int_from : ℕ → Codes → Option ℕ
  int_from acc [] = some acc
  int_from acc (c ∷ s) = elim (decimal c) [ none ↦ none | some d ↦ int_from (acc * 10 + d) s ]

  -- `int(raw)`; `none` is its `ValueError`, which a text beyond Python's limit of 4300 digits gets too.
  unfoldable pub int_of : Codes → Option ℕ
  unfolding int_from
  int_of s = if ltb 4300 (length s) then none else int_from 0 s

  unfoldable pub read_field : ℕ → Option Codes → Field
  read_field max_points raw =
      let s = strip (elim raw [ none ↦ [] | some t ↦ t ]) in
      elim s [
        | [] ↦ empty
        | c ∷ t ↦ if not (all is_digit (c ∷ t)) then not_whole else elim (int_of (c ∷ t)) [
          | none ↦ not_a_number
          | some n ↦ if ltb max_points n then too_large else value n
        ]
      ]

  -- The form as a function of the criterion's key: `form.get(f"score_{c.key}")`.
  unfoldable pub parse_fields : List Criterion → (Codes → Option Codes) → List (Codes × ℕ) → Parsed
  parse_fields [] form out = points out
  parse_fields (c ∷ crits) form out =
      let rest = λ (o : List (Codes × ℕ)). parse_fields crits form o in
      elim (read_field c.max_points (form c.key)) [
        | empty ↦ rest out
        | value n ↦ rest (insert_code c.key n out)
        | not_whole ↦ score_error
        | too_large ↦ score_error
        | not_a_number ↦ value_error
      ]

  unfoldable pub parse_form : List Criterion → (Codes → Option Codes) → Parsed
  parse_form crits form = parse_fields crits form []

unfoldable pub is_complete : List Criterion → List (Codes × ℕ) → Bool
is_complete crits scores = all (λ c. c.optional || is_some (lookup_code c.key scores)) crits

-- `round(quiz_pct / 100.0 * quiz_points, 6)` in millionths: float arithmetic, monotone in the
-- percentage and exact at 100.
pub record Percent : Type 1 where
  pub F : Type 0
  pub leb_F : F → F → Bool
  pub hundred : F
  pub millionths : F → ℕ → ℕ
  pub millionths_mono :
      (p : F) (q : ℕ) → leb_F p hundred ≡ true → millionths p q ≤ millionths hundred q
  pub millionths_hundred : (q : ℕ) → millionths hundred q ≡ q * 1000000

-- The parts of the `grade_breakdown` dict that `compute` returns.
pub record Breakdown : Type 0 where
  pub grade : ℕ
  pub quiz_awarded : ℕ
  pub quiz_max : ℕ
  pub rows : List (Codes × ℕ × ℕ)

unfoldable pub points_of : List (Codes × ℕ) → Criterion → ℕ
points_of scores c = or_zero (lookup_code c.key scores)

module _ (pc : Percent) where
  open pc use {F, millionths}

  -- `math.ceil(raw)`, or half up.
  unfoldable pub quiz_points_for : ℕ → F → Bool → ℕ
  quiz_points_for quiz_points quiz_pct round_up =
      let raw = millionths quiz_pct quiz_points in
      if round_up then (raw + 999999) / 1000000 else (raw + 500000) / 1000000

  unfoldable pub compute : AssignmentConfig → F → List (Codes × ℕ) → Bool → Breakdown
  compute cfg quiz_pct scores round_up =
      let q = natural_of cfg.quiz_points in
      let awarded = quiz_points_for q quiz_pct round_up in
      let crits = criteria cfg in
      let total = cfg.min_grade + awarded + sum_by (points_of scores) crits in
      record {
        grade = max cfg.min_grade (min cfg.max_grade total);
        quiz_awarded = awarded;
        quiz_max = q;
        rows = map (λ c. (c.key, points_of scores c, c.max_points)) crits;
      }

-- ===== src/Grading/Examples.antt =====
-- The grade theorems at one assignment: a quiz for 40 points, a report for 50 and a bonus for 10.
use native.Mathlib.Nat.{mul-le-mul_right}
use submissions_checker.Prelude.{
  ℕ, ◌+◌, ◌-◌, ◌*◌, ◌≤◌, ◌≡◌, refl, true, false, Option, none, some, List, [], ◌∷◌, arith, All,
  Codes, any, ◌&&◌, ◌||◌, ◌==◌, leb, if◌then◌else◌, sum_by,
}
use submissions_checker.Grading.TeacherScores.{
  natural, text, AssignmentConfig, Criterion, Characters, points, value_error, validate_assignment,
  criteria, criterion_of, natural_of, key_of, check_criteria, check_max, check_sum,
  check_quiz_points, key_matches, key_rest, key_char, seen_key, parse_form, parse_fields,
  read_field, strip, drop_space, int_of, int_from, points_of, Percent, compute, quiz_points_for,
  is_complete,
}
use submissions_checker.Grading.Grade.{compute-parse_form}
use submissions_checker.Grading.Refused.{is_unreadable, parse_form-value_error}

-- ASCII, and the superscript two (178), a digit without a decimal value.
abbrev ascii : Characters
ascii = record {
  is_space = λ c. c == 32;
  is_digit = λ c. (leb 48 c && leb c 57) || c == 178;
  decimal = λ c. if leb 48 c && leb c 57 then some (c - 48) else none;
}

pub millionths_mono : (p q : ℕ) → leb p 100 ≡ true → p * q * 10000 ≤ 100 * q * 10000
millionths_mono p q h = let le : p ≤ 100 = ground arith in ground (arith, mul-le-mul_right q le)

pub millionths_hundred : (q : ℕ) → 100 * q * 10000 ≡ q * 1000000
millionths_hundred q = ground arith

abbrev pub whole_percents : Percent
whole_percents = record {
  F = ℕ;
  leb_F = leb;
  hundred = 100;
  millionths = λ p q. p * q * 10000;
  millionths_mono = millionths_mono;
  millionths_hundred = λ q. millionths_hundred q;
}

abbrev report : Codes
report = b'r' ∷ b'1' ∷ []

abbrev bonus : Codes
bonus = b'b' ∷ b'_' ∷ []

abbrev cfg : AssignmentConfig
cfg = record {
  has_questions = true;
  quiz_points = natural 40;
  teacher_criteria = some (
      record { key = text report; max_points = natural 50; optional = false }
      ∷ record { key = text bonus; max_points = natural 10; optional = true }
      ∷ []);
  min_grade = 0;
  max_grade = 100;
}

accepted : validate_assignment cfg ≡ none
unfolding validate_assignment check_criteria check_max check_sum check_quiz_points key_matches
    key_rest key_char seen_key
accepted = refl

-- " 47" in the report's field, nothing in the bonus's.
abbrev form : Codes → Option Codes
form [] = none
form (c ∷ s) = if c == b'r' then some (b' ' ∷ b'4' ∷ b'7' ∷ []) else none

abbrev typed : List (Codes × ℕ)
typed = (report, 47) ∷ []

read : parse_form ascii (criteria cfg) form ≡ points typed
unfolding parse_form parse_fields read_field strip drop_space int_of int_from criteria criterion_of
    natural_of key_of
read = refl

complete : is_complete (criteria cfg) typed ≡ true
unfolding is_complete criteria criterion_of key_of natural_of
complete = refl

-- 81 per cent of 40 points are 32.4: 32, and 33 for a squad.
half_up : (compute whole_percents cfg 81 typed false).grade ≡ 79
unfolding compute quiz_points_for criteria criterion_of natural_of key_of points_of
half_up = refl

rounded_up : (compute whole_percents cfg 81 typed true).grade ≡ 80
unfolding compute quiz_points_for criteria criterion_of natural_of key_of points_of
rounded_up = refl

typed_within : All (λ c. points_of typed c ≤ c.max_points) (criteria cfg)
unfolding criteria criterion_of key_of natural_of points_of
typed_within = ground arith

compute-parse_form_example :
    let b = compute whole_percents cfg 81 typed false in
    (b.grade ≡ cfg.min_grade + b.quiz_awarded + sum_by (points_of typed) (criteria cfg))
    × (b.grade ≤ cfg.max_grade)
    × (b.quiz_awarded ≤ b.quiz_max)
compute-parse_form_example =
    compute-parse_form whole_percents cfg 81 typed false ascii form accepted (ground arith) refl
      read

abbrev full_marks : List (Codes × ℕ)
full_marks = (report, 50) ∷ (bonus, 10) ∷ []

full_marks_full : All (λ c. points_of full_marks c ≡ c.max_points) (criteria cfg)
unfolding criteria criterion_of key_of natural_of points_of
full_marks_full = ground arith

abbrev report_criterion : Criterion
report_criterion = record { key = report; max_points = 50; optional = false }

-- The superscript two passes `isdigit`, and `int` refuses it.
superscript_two : parse_form ascii (report_criterion ∷ []) (λ k. some (178 ∷ [])) ≡ value_error
unfolding parse_form parse_fields read_field strip drop_space int_of int_from
superscript_two = refl

parse_form-value_error_example :
    any (λ c. is_unreadable ascii (some (178 ∷ []))) (report_criterion ∷ []) ≡ true
parse_form-value_error_example =
    parse_form-value_error ascii (report_criterion ∷ []) (λ k. some (178 ∷ [])) superscript_two

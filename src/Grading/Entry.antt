-- ===== src/Grading/Entry.antt =====
-- The points a teacher types, services/teacher_scores.py `parse_form`: what is stored of the form.
use submissions_checker.Prelude.{
  ℕ, ◌≤◌, ◌≡◌, refl, ◌∙◌, false, Option, none, some, List, [], ◌∷◌, arith, All, or_zero, Codes,
  codes_eq, lookup_code, insert_code, lookup_code-insert, codes_eq_iff, codes_eq_refl,
}
use submissions_checker.Grading.TeacherScores.{
  Criterion, Characters, points, Field, value, read_field, parse_fields, parse_form, points_of,
}
use submissions_checker.Grading.Points.{DistinctKeys}

-- What a field leaves in the dict.
unfoldable pub entered : Field → Option ℕ
entered (value n) = some n
entered _ = none

put : Codes → Field → List (Codes × ℕ) → List (Codes × ℕ)
put k (value n) out = insert_code k n out
put k _ out = out

lookup_code-put_other :
    (j k : Codes) (f : Field) (out : List (Codes × ℕ))
    → codes_eq j k ≡ false
    → lookup_code j (put k f out) ≡ lookup_code j out
unfolding put
lookup_code-put_other j k (value n) out h = ground (arith, lookup_code-insert j k n out)
lookup_code-put_other j k f out h = refl

lookup_code-put :
    (k : Codes) (f : Field) (out : List (Codes × ℕ))
    → lookup_code k out ≡ none
    → lookup_code k (put k f out) ≡ entered f
unfolding put entered
lookup_code-put k (value n) out h = ground (arith, lookup_code-insert k k n out, codes_eq_refl k)
lookup_code-put k f out h = h

lookup_code-put-none :
    (k : Codes) (f : Field) (out : List (Codes × ℕ)) (crits : List Criterion)
    → All (λ c. codes_eq k c.key ≡ false) crits
    → All (λ c. lookup_code c.key out ≡ none) crits
    → All (λ c. lookup_code c.key (put k f out) ≡ none) crits
lookup_code-put-none k f out [] d h = tt
lookup_code-put-none k f out (c ∷ crits) (dc, d) (hc, h) = (
  lookup_code-put_other c.key k f out
        (ground (arith, codes_eq_iff c.key k, codes_eq_iff k c.key, dc))
      ∙ hc,
  lookup_code-put-none k f out crits d h,
)

entered-le : (f : Field) (m : ℕ) → ((n : ℕ) → f ≡ value n → n ≤ m) → or_zero (entered f) ≤ m
unfolding entered
entered-le (value n) m h = h n refl
entered-le f m h = ground arith

abbrev no_points : List (Codes × ℕ)
no_points = []

module _ (chars : Characters) where
  read_field-value : (m n : ℕ) (raw : Option Codes) → read_field chars m raw ≡ value n → n ≤ m
  unfolding read_field
  read_field-value m n raw e = ground arith

  -- One criterion of a form that is read to the end.
  parse_fields-put :
      (c : Criterion) (crits : List Criterion) (form : Codes → Option Codes)
      (out o : List (Codes × ℕ))
      → parse_fields chars (c ∷ crits) form out ≡ points o
      → parse_fields chars crits form (put c.key (read_field chars c.max_points (form c.key)) out)
        ≡ points o
  unfolding parse_fields put
  parse_fields-put c crits form out o e = ground arith

  -- A key that no criterion has keeps what it had.
  parse_fields-other :
      (k : Codes) (crits : List Criterion) (form : Codes → Option Codes) (out o : List (Codes × ℕ))
      → All (λ c. codes_eq k c.key ≡ false) crits
      → parse_fields chars crits form out ≡ points o
      → lookup_code k o ≡ lookup_code k out
  parse_fields-other k [] form out o h e = unfold parse_fields in ground arith
  parse_fields-other k (c ∷ crits) form out o (hc, h) e =
      let f = read_field chars c.max_points (form c.key) in
      parse_fields-other k crits form (put c.key f out) o h (parse_fields-put c crits form out o e)
      ∙ lookup_code-put_other k c.key f out hc

  -- The dict has what the field of the form says, and no more points than the criterion allows.
  abbrev pub Stored : (Codes → Option Codes) → List (Codes × ℕ) → Criterion → Type 0
  Stored form o c =
      (lookup_code c.key o ≡ entered (read_field chars c.max_points (form c.key)))
      × (points_of o c ≤ c.max_points)

  stored_points :
      (k : Codes) (m : ℕ) (raw : Option Codes) (o : List (Codes × ℕ))
      → lookup_code k o ≡ entered (read_field chars m raw)
      → or_zero (lookup_code k o) ≤ m
  stored_points k m raw o e =
      rw e (entered-le (read_field chars m raw) m (λ n. read_field-value m n raw))

  parse_fields-Stored :
      (crits : List Criterion) (form : Codes → Option Codes) (out o : List (Codes × ℕ))
      → DistinctKeys crits
      → All (λ c. lookup_code c.key out ≡ none) crits
      → parse_fields chars crits form out ≡ points o
      → All (Stored form o) crits
  parse_fields-Stored [] form out o d h e = tt
  parse_fields-Stored (c ∷ crits) form out o (dc, d) (hc, h) e =
      let f = read_field chars c.max_points (form c.key) in
      let e' = parse_fields-put c crits form out o e in
      let l =
        parse_fields-other c.key crits form (put c.key f out) o dc e'
        ∙ lookup_code-put c.key f out hc in
      (
        (l, unfold points_of in stored_points c.key c.max_points (form c.key) o l),
        parse_fields-Stored crits form (put c.key f out) o d
            (lookup_code-put-none c.key f out crits dc h) e',
      )

  pub parse_form-Stored :
      (crits : List Criterion) (form : Codes → Option Codes) (o : List (Codes × ℕ))
      → DistinctKeys crits
      → parse_form chars crits form ≡ points o
      → All (Stored form o) crits
  unfolding parse_form
  parse_form-Stored crits form o d e =
      parse_fields-Stored crits form no_points o d (none_in crits) e
    where
      none_in : (cs : List Criterion) → All (λ c. lookup_code c.key no_points ≡ none) cs
      none_in [] = tt
      none_in (c ∷ cs) = (refl, none_in cs)

-- ===== src/Grading/Refused.antt =====
-- services/teacher_scores.py `parse_form`: the fields on which `int` raises.
use submissions_checker.Prelude.{
  ℕ, ◌+◌, ◌*◌, ◌≤◌, ◌≡◌, refl, Bool, true, false, not, ◌&&◌, ◌||◌, Option, none, some, List, [],
  ◌∷◌, arith, all, any, length, reverse, ltb, is_some, Codes, ◌⊎◌, insert_code, Option-cases, inl,
  inr,
}
use mathlib.Core.List.{reverse_aux}
use submissions_checker.Grading.TeacherScores.{
  Criterion, Characters, Field, empty, value, not_whole, too_large, value_error, not_a_number,
  drop_space, strip, int_from, int_of, read_field, parse_fields, parse_form,
}

any-reverse_aux : (p : ℕ → Bool) (s t : Codes) → any p (reverse_aux s t) ≡ (any p s || any p t)
any-reverse_aux p [] t = refl
any-reverse_aux p (c ∷ s) t = ground (arith, any-reverse_aux p s (c ∷ t))

length-reverse_aux : (s t : Codes) → length (reverse_aux s t) ≡ length s + length t
length-reverse_aux [] t = omega arith
length-reverse_aux (c ∷ s) t = ground (arith, length-reverse_aux s (c ∷ t))

module _ (chars : Characters) where
  open chars use {is_digit, decimal}

  any-drop_space : (p : ℕ → Bool) (s : Codes) → any p (drop_space chars s) ≡ true → any p s ≡ true
  unfolding drop_space
  any-drop_space p [] h = h
  any-drop_space p (c ∷ s) h = ground (arith, any-drop_space p s)

  length-drop_space : (s : Codes) → length (drop_space chars s) ≤ length s
  unfolding drop_space
  length-drop_space [] = ground arith
  length-drop_space (c ∷ s) = ground (arith, length-drop_space s)

  -- What is stripped of spaces has no other characters, and no more.
  any-strip : (p : ℕ → Bool) (s : Codes) → any p (strip chars s) ≡ true → any p s ≡ true
  unfolding strip
  any-strip p s h =
      let inner : Codes = drop_space chars s in
      ground (
        arith,
        any-reverse_aux p (drop_space chars (reverse inner)) [],
        any-drop_space p (reverse inner),
        any-reverse_aux p inner [],
        any-drop_space p s,
      )

  length-strip : (s : Codes) → length (strip chars s) ≤ length s
  unfolding strip
  length-strip s =
      let inner : Codes = drop_space chars s in
      ground (
        arith,
        length-reverse_aux (drop_space chars (reverse inner)) [],
        length-drop_space (reverse inner),
        length-reverse_aux inner [],
        length-drop_space s,
      )

  -- A digit for `isdigit` that has no decimal value.
  abbrev pub is_odd_digit : ℕ → Bool
  is_odd_digit c = is_digit c && not (is_some (decimal c))

  abbrev pub is_unreadable : Option Codes → Bool
  is_unreadable none = false
  is_unreadable (some s) = ltb 4300 (length s) || any is_odd_digit s

  int_from-none :
      (acc : ℕ) (s : Codes)
      → all is_digit s ≡ true
      → int_from chars acc s ≡ none
      → any is_odd_digit s ≡ true
  unfolding int_from
  int_from-none acc [] h e = absurd (ground arith)
  int_from-none acc (c ∷ s) h e = elim (Option-cases (decimal c)) [
    | inl n ↦ ground (arith, n)
    | inr (d, f) ↦ ground (arith, f, int_from-none (acc * 10 + d) s)
  ]

  read_field-not_a_number :
      (m : ℕ) (raw : Option Codes)
      → read_field chars m raw ≡ not_a_number
      → is_unreadable raw ≡ true
  unfolding read_field int_of
  read_field-not_a_number m none e = absurd (unfold strip drop_space in ground arith)
  read_field-not_a_number m (some s) e =
      ground (arith, any-strip is_odd_digit s, length-strip s, int_from-none 0 (strip chars s))

  -- The error comes from this field or from a later one.
  parse_fields-later :
      (c : Criterion) (crits : List Criterion) (form : Codes → Option Codes)
      (out : List (Codes × ℕ)) (f : Field)
      → read_field chars c.max_points (form c.key) ≡ f
      → parse_fields chars (c ∷ crits) form out ≡ value_error
      → (f ≡ not_a_number)
        ⊎ ((o : List (Codes × ℕ)) × (parse_fields chars crits form o ≡ value_error))
  unfolding parse_fields
  parse_fields-later c crits form out empty e h = inr (out, ground (arith, e))
  parse_fields-later c crits form out (value n) e h =
      inr (insert_code c.key n out, ground (arith, e))
  parse_fields-later c crits form out not_whole e h = absurd (ground (arith, e))
  parse_fields-later c crits form out too_large e h = absurd (ground (arith, e))
  parse_fields-later c crits form out not_a_number e h = inl refl

  parse_fields-value_error :
      (crits : List Criterion) (form : Codes → Option Codes) (out : List (Codes × ℕ))
      → parse_fields chars crits form out ≡ value_error
      → any (λ c. is_unreadable (form c.key)) crits ≡ true
  unfolding parse_fields
  parse_fields-value_error [] form out e = absurd (ground arith)
  parse_fields-value_error (c ∷ crits) form out e =
      elim (parse_fields-later c crits form out _ refl e) [
        | inl bad ↦ ground (arith, read_field-not_a_number c.max_points (form c.key) bad)
        | inr (o, later) ↦ ground (arith, parse_fields-value_error crits form o later)
      ]

  -- `parse_form` raises the ValueError of `int`, which is no ScoreError, only where the field of a
  -- criterion has a character that `isdigit` accepts and that has no decimal value, such as the
  -- superscript two, or is longer than 4300 characters.
  pub parse_form-value_error :
      (crits : List Criterion) (form : Codes → Option Codes)
      → parse_form chars crits form ≡ value_error
      → any (λ c. is_unreadable (form c.key)) crits ≡ true
  unfolding parse_form
  parse_form-value_error crits form e = parse_fields-value_error crits form [] e

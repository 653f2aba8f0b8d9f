-- ===== src/CsvExport/Safe.antt =====
-- utils/csv_export.py: what leaves `csv_safe` is no formula, and can be read back.
use submissions_checker.Prelude.{
  ◌≡◌, refl, Bool, false, [], ◌∷◌, ◌==◌, if◌then◌else◌, Bool-cases, inl, inr,
}
use submissions_checker.CsvExport.{Value, text, other, is_prefix, starts_formula, csv_safe}

abbrev pub is_formula : Value → Bool
is_formula (text s) = starts_formula s
is_formula (other n) = false

-- What a spreadsheet shows: a leading apostrophe only marks a text.
abbrev pub shown : Value → Value
shown (text []) = text []
shown (text (c ∷ s)) = if c == 39 then text s else text (c ∷ s)
shown (other n) = other n

-- No value that `csv_safe` returns is evaluated as a formula, a second pass changes nothing, and
-- a formula is shown as the text it was.
pub csv_safe-is_formula :
    (v : Value)
    → (is_formula (csv_safe v) ≡ false)
      × (csv_safe (csv_safe v) ≡ csv_safe v)
      × (shown (csv_safe v) ≡ (if is_formula v then v else shown v))
unfolding csv_safe starts_formula is_prefix
csv_safe-is_formula (other n) = (refl, refl, refl)
csv_safe-is_formula (text []) = (refl, refl, refl)
csv_safe-is_formula (text (c ∷ s)) = elim (Bool-cases (is_prefix c)) [
  | inl p ↦ rw p (refl, refl, refl)
  | inr n ↦ rw n (n, rw n refl, refl)
]

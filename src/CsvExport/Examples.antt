-- ===== src/CsvExport/Examples.antt =====
-- A cell that is a formula, and one that is not.
use submissions_checker.Prelude.{◌≡◌, refl, [], ◌∷◌}
use submissions_checker.CsvExport.{Value, text, is_prefix, starts_formula, csv_safe}

abbrev formula : Value
formula = text (b'=' ∷ b'1' ∷ [])

made_safe : csv_safe formula ≡ text (39 ∷ b'=' ∷ b'1' ∷ [])
unfolding csv_safe starts_formula is_prefix
made_safe = refl

-- ===== src/CsvExport.antt =====
-- utils/csv_export.py: the apostrophe before a cell that a spreadsheet would evaluate.
pub mod Safe
mod Examples
use submissions_checker.Prelude.{ℕ, Bool, false, ◌||◌, [], ◌∷◌, ◌==◌, if◌then◌else◌, Codes}

-- A value of the export: a text, or anything else, by a number that stands for it.
pub data Value : Type 0 where
  text : Codes → Value
  other : ℕ → Value

-- `_FORMULA_PREFIXES`: = + - @, the tab and the carriage return.
unfoldable pub is_prefix : ℕ → Bool
is_prefix c = c == b'=' || c == b'+' || c == b'-' || c == b'@' || c == 9 || c == 13

-- `value.startswith(_FORMULA_PREFIXES)`
unfoldable pub starts_formula : Codes → Bool
starts_formula [] = false
starts_formula (c ∷ s) = is_prefix c

unfoldable pub csv_safe : Value → Value
csv_safe (text s) = if starts_formula s then text (39 ∷ s) else text s
csv_safe (other n) = other n

-- ===== src/Quiz/Fractions.antt =====
-- Exact fractions as one reading of the floats that scoring uses: the examples run on them.
use submissions_checker.Prelude.{ℕ, ◌*◌, ◌≤◌, ◌<◌, ◌≡◌, Bool, true, arith, leb}
use submissions_checker.Quiz.Scoring.{Floats}

abbrev pub Fraction : Type 0
Fraction = ℕ × ℕ

abbrev pub leb_fraction : Fraction → Fraction → Bool
leb_fraction (a, b) (c, d) = leb (a * d) (c * b)

pub leb_fraction_mono :
    (t : Fraction) (a b m : ℕ)
    → 0 < m
    → a ≤ b
    → leb_fraction t (a, m) ≡ true
    → leb_fraction t (b, m) ≡ true
leb_fraction_mono (n, d) a b m p h e = grind arith

abbrev pub fractions : Floats
fractions = record {
  F = Fraction;
  div = λ a m. (a, m);
  leb_F = leb_fraction;
  default_pass_threshold = (3, 5);
  div_mono = leb_fraction_mono;
}

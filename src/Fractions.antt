-- ===== src/Fractions.antt =====
-- What src/condora/core/adaptive.py does with floats, on exact fractions that are not negative.
use condora.Base.{
  ℕ, Bool, List, [], ◌∷◌, ◌+◌, ◌-◌, ◌*◌, ◌/◌, ◌%◌, ltb, leb, length, nat_eq, if◌then◌else◌,
}
use condora.Planner.{Fraction, is_less}

abbrev pub whole : ℕ → Fraction
whole n = record { num = n; den = 1 }

abbrev pub is_positive : Fraction → Bool
is_positive f = ltb 0 f.num

abbrev pub is_at_most : Fraction → Fraction → Bool
is_at_most f g = leb (f.num * g.den) (g.num * f.den)

unfoldable pub plus : Fraction → Fraction → Fraction
plus f g = record { num = f.num * g.den + g.num * f.den; den = f.den * g.den }

-- A difference that stops at 0.
unfoldable pub minus : Fraction → Fraction → Fraction
minus f g = record { num = f.num * g.den - g.num * f.den; den = f.den * g.den }

unfoldable pub times : Fraction → Fraction → Fraction
times f g = record { num = f.num * g.num; den = f.den * g.den }

unfoldable pub over : Fraction → Fraction → Fraction
over f g = record { num = f.num * g.den; den = f.den * g.num }

abbrev pub greater : Fraction → Fraction → Fraction
greater f g = if is_less f g then g else f

abbrev pub smaller : Fraction → Fraction → Fraction
smaller f g = if is_less g f then g else f

-- `int(f)` and `round(f)`, which rounds a half to the even number.
unfoldable pub floor : Fraction → ℕ
floor f = f.num / f.den

unfoldable pub nearest : Fraction → ℕ
nearest f =
    let q = f.num / f.den in
    let rest = 2 * (f.num % f.den) in
    if ltb rest f.den then q else if ltb f.den rest then q + 1 else q + q % 2

unfoldable pub total : List Fraction → Fraction
unfolding plus
total [] = whole 0
total (f ∷ fs) = plus f (total fs)

-- `sum(fs) / len(fs)`, and 0 for no values.
unfoldable pub mean : List Fraction → Fraction
unfolding total over
mean [] = whole 0
mean (f ∷ fs) = over (total (f ∷ fs)) (whole (length (f ∷ fs)))

-- `max(fs)`
unfoldable pub greatest : List Fraction → Fraction
greatest [] = whole 0
greatest (f ∷ fs) = greater f (greatest fs)

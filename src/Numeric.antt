-- ===== src/Numeric.antt =====
-- The decimal conventions of t0-trading/src/t0_trading/numeric.py. A quantum of 10 ^ -s is its s.
use mini_lakehouse.Common.{
  ℕ, ◌≡◌, refl, true, false, Option, none, some, ltb, ◌==◌, Result, ok, err, ◌>>=◌, ◌>>◌, raise_if,
}
use mini_lakehouse.Common.Int.{pos, ◌*ℤ◌}
use mini_lakehouse.Common.Decimal
use mini_lakehouse.Common.Decimal.{Decimal}

-- One constructor for each statement that raises.
pub data NumericError : Type 0 where
  zero_denominator rate_counts : NumericError

abbrev pub ratio_quantum : ℕ
ratio_quantum = 8

abbrev pub rate_quantum : ℕ
rate_quantum = 6

abbrev pub bps_quantum : ℕ
bps_quantum = 4

abbrev pub price_quantum : ℕ
price_quantum = 8

-- The quotient, or the error of a zero divisor.
abbrev pub quotient_of : Option Decimal → Result NumericError Decimal
quotient_of none = err zero_denominator
quotient_of (some q) = ok q

unfoldable pub ratio : Decimal → Decimal → ℕ → Result NumericError Decimal
ratio numerator denominator quantum = do
  raise_if (Decimal.eq denominator Decimal.zero_vnd) zero_denominator
  q ← quotient_of (Decimal.div numerator denominator)
  ok (Decimal.quantize q quantum)

unfoldable pub basis_points : Decimal → Decimal → Result NumericError Decimal
unfolding ratio
basis_points numerator denominator =
    ratio (Decimal.mul numerator (Decimal.whole 10000)) denominator bps_quantum

-- The counts are lengths, so they are not negative.
unfoldable pub rate : ℕ → ℕ → Result NumericError Decimal
unfolding ratio
rate numerator denominator = do
  raise_if (ltb denominator numerator) rate_counts
  let share = ratio (Decimal.whole numerator) (Decimal.whole denominator) rate_quantum
  elim (denominator == 0) [ true ↦ ok Decimal.zero_vnd | false ↦ share ]

-- (20100 - 20000) / 20000 in basis points, with four decimals.
fifty_points :
    basis_points (Decimal.whole 100) (Decimal.whole 20000)
    ≡ ok (record { coefficient = pos 500000; scale = 4 })
unfolding basis_points ◌*ℤ◌ Decimal.mul Decimal.div Decimal.lt Decimal.quantize
fifty_points = refl

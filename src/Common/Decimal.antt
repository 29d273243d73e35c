-- ===== src/Common/Decimal.antt =====
-- Python's `decimal.Decimal` under its default context: 28 digits, ROUND_HALF_EVEN.
-- A value is `coefficient / 10 ^ scale`; a value of 10 ^ 28 or more is written with scale 0.
-- Infinities, NaN and the limits on exponents are left out: the program's values have none.
pub mod Fuel
pub mod Order
use mathlib.Core.List.{foldl}
use mini_lakehouse.Common.{
  ℕ, zero, suc, ◌+◌, ◌-◌, ◌*◌, ◌/◌, ◌%◌, ◌^◌, max, ◌≡◌, refl, Bool, true, false, ◌&&◌, Option, none,
  some, List, arith, ltb, leb, leb→le, ◌==◌, not, if◌then◌else◌,
}
use mini_lakehouse.Common.Int.{
  ℤ, pos, negsuc, pos_part, neg_part, sub_ℕ, ◌+ℤ◌, ◌-ℤ◌, ◌*ℤ◌, ltb_ℤ, abs_ℤ, same_sign, leb_ℤ,
  +ℤ-nonneg, -ℤ-nonneg,
}

pub record Decimal : Type 0 where
  pub coefficient : ℤ
  pub scale : ℕ

abbrev pub whole : ℕ → Decimal
whole n = record { coefficient = pos n; scale = 0 }

-- `Decimal(0)`
abbrev pub zero_vnd : Decimal
zero_vnd = whole 0

abbrev precision : ℕ
precision = 28

-- n / d rounded to the nearest integer, halves to the even one.
half_even : ℕ → ℕ → ℕ
half_even n d =
    let q = n / d in
    let twice = 2 * (n % d) in if ltb twice d then q else if ltb d twice then q + 1 else q + q % 2

-- n / d rounded to the nearest integer, halves away from zero.
half_up : ℕ → ℕ → ℕ
half_up n d = (2 * n + d) / (2 * d)

-- How many last digits of `c` do not fit the precision; `fuel` no less than `c` is enough.
excess : ℕ → ℕ → ℕ
excess zero c = 0
excess (suc fuel) c =
    let rest = excess fuel (c / 10) in if ltb c (10 ^ precision) then 0 else rest + 1

-- A coefficient of k digits too many loses them, and its scale falls by k.
drop_digits : ℕ → ℕ → ℕ → ℕ × ℕ
unfolding half_even
drop_digits zero c s = (c, s)
drop_digits (suc k) c s =
    let c' = half_even c (10 ^ suc k) in
    if leb (suc k) s then (c', s - suc k) else (c' * 10 ^ (suc k - s), 0)

fit : ℕ → ℕ → ℕ × ℕ
unfolding excess drop_digits
fit c s = drop_digits (excess c c) c s

signed : Bool → ℕ × ℕ → Decimal
signed true (c, s) = record { coefficient = sub_ℕ 0 c; scale = s }
signed false (c, s) = record { coefficient = pos c; scale = s }

-- The exact value `c / 10 ^ s`, rounded to the context.
pub rounded : ℤ → ℕ → Decimal
unfolding signed fit
rounded (pos c) s = signed false (fit c s)
rounded (negsuc c) s = signed true (fit (suc c) s)

-- The coefficient at a scale that is not smaller.
at_scale : Decimal → ℕ → ℤ
at_scale a s =
    let p = 10 ^ (s - a.scale) in sub_ℕ (pos_part a.coefficient * p) (neg_part a.coefficient * p)

-- Both coefficients at the larger of the two scales.
abbrev common_scale : Decimal → Decimal → ℕ
common_scale a b = max a.scale b.scale

unfoldable pub add : Decimal → Decimal → Decimal
unfolding rounded at_scale
add a b = let s = common_scale a b in rounded (at_scale a s +ℤ at_scale b s) s

unfoldable pub sub : Decimal → Decimal → Decimal
unfolding rounded at_scale
sub a b = let s = common_scale a b in rounded (at_scale a s -ℤ at_scale b s) s

unfoldable pub mul : Decimal → Decimal → Decimal
unfolding rounded
mul a b = rounded (a.coefficient *ℤ b.coefficient) (a.scale + b.scale)

-- The order is exact: a comparison does not round.
unfoldable pub lt : Decimal → Decimal → Bool
unfolding at_scale
lt a b = let s = common_scale a b in ltb_ℤ (at_scale a s) (at_scale b s)

abbrev pub le : Decimal → Decimal → Bool
le a b = not (lt b a)

-- `a == b` compares the values: 1.0 is 1.
abbrev pub eq : Decimal → Decimal → Bool
eq a b = not (lt a b) && not (lt b a)

-- `a < 0`
abbrev pub is_negative : Decimal → Bool
is_negative a = elim a.coefficient [ pos _ ↦ false | negsuc _ ↦ true ]

-- `a > 0`
abbrev pub is_positive : Decimal → Bool
is_positive a = elim a.coefficient [ pos n ↦ ltb 0 n | negsuc _ ↦ false ]

abbrev pub same : Option Decimal → Option Decimal → Bool
same none none = true
same none (some _) = false
same (some _) none = false
same (some a) (some b) = eq a b

-- The least s with d * 10 ^ 27 no more than n * 10 ^ s.
shift : ℕ → ℕ → ℕ → ℕ
shift zero n d = 0
shift (suc fuel) n d =
    let rest = shift fuel (n * 10) d in if ltb n (d * 10 ^ (precision - 1)) then rest + 1 else 0

-- An exact quotient loses its last zeros, down to the scale of its operands.
strip : ℕ → ℕ → ℕ → ℕ → ℕ × ℕ
strip zero c s ideal = (c, s)
strip (suc fuel) c s ideal =
    let shorter = strip fuel (c / 10) (s - 1) ideal in
    if ltb ideal s && (c % 10 == 0) then shorter else (c, s)

quotient_from : ℕ → ℕ → ℕ → ℕ → ℕ × ℕ
unfolding half_even excess strip
quotient_from zero n d ideal =
    let k = excess (n / d) (n / d) in (half_even n (d * 10 ^ k) * 10 ^ k, 0)
quotient_from (suc s) n d ideal =
    let m = n * 10 ^ suc s in
    if m % d == 0 then strip (suc s) (m / d) (suc s) ideal else (half_even m d, suc s)

quotient : ℕ → ℕ → ℕ → ℕ × ℕ
unfolding shift quotient_from
quotient n d ideal =
    if n == 0 then (0, ideal) else quotient_from (shift (d + precision) n d) n d ideal

-- `a / b`; `none` stands for the `ArithmeticError` of a zero divisor.
unfoldable pub div : Decimal → Decimal → Option Decimal
unfolding quotient signed
div a b =
    let n = abs_ℤ a.coefficient * 10 ^ b.scale in
    let d = abs_ℤ b.coefficient * 10 ^ a.scale in
    let minus = not (same_sign a.coefficient b.coefficient) in
    if d == 0 then none else some (signed minus (quotient n d (a.scale - b.scale)))

-- `a.quantize(Decimal(10) ** -s, rounding=ROUND_HALF_UP)`, for results of at most 28 digits.
unfoldable pub quantize : Decimal → ℕ → Decimal
unfolding half_up signed
quantize a s =
    let n = abs_ℤ a.coefficient * 10 ^ s in signed (is_negative a) (half_up n (10 ^ a.scale), s)

-- Whether `a % b` is not 0; the code tests it for positive values only.
unfoldable pub has_remainder : Decimal → Decimal → Bool
unfolding at_scale
has_remainder a b =
    let s = common_scale a b in not (abs_ℤ (at_scale a s) % abs_ℤ (at_scale b s) == 0)

-- `-a`
abbrev pub neg : Decimal → Decimal
neg a = sub zero_vnd a

-- `sum(values, Decimal(0))`
unfoldable pub total : List Decimal → Decimal
total = foldl add zero_vnd

third :
    div (whole 1) (whole 3)
    ≡ some (record { coefficient = pos 3333333333333333333333333333; scale = 28 })
unfolding div
third = refl

quarter : div (whole 100) (whole 400) ≡ some (record { coefficient = pos 25; scale = 2 })
unfolding div
quarter = refl

-- 1 - 0.35%
net_rate :
    sub (whole 1) (record { coefficient = pos 35; scale = 4 })
    ≡ record { coefficient = pos 9965; scale = 4 }
unfolding sub ◌-ℤ◌
net_rate = refl

half_to_even : add (whole (10 ^ 28)) (whole 5) ≡ whole (10 ^ 28)
unfolding add ◌+ℤ◌
half_to_even = refl

half_to_even_up : add (whole (10 ^ 28)) (whole 15) ≡ whole (10 ^ 28 + 20)
unfolding add ◌+ℤ◌
half_to_even_up = refl

excess_fits : (fuel c : ℕ) → ltb c (10 ^ precision) ≡ true → excess fuel c ≡ 0
unfolding excess
excess_fits zero c h = refl
excess_fits (suc fuel) c h = rw h

-- A value of at most 28 digits is not rounded.
pub rounded_exact :
    (c s : ℕ)
    → ltb c (10 ^ 28) ≡ true
    → rounded (pos c) s ≡ record { coefficient = pos c; scale = s }
unfolding rounded
rounded_exact c s h = rw (excess_fits c c h)

-- Rounding keeps the sign.
rounded-nonneg : (z : ℤ) (s : ℕ) → leb_ℤ (pos 0) z ≡ true → is_negative (rounded z s) ≡ false
unfolding rounded
rounded-nonneg (pos c) s h = refl
rounded-nonneg (negsuc c) s h = absurd (omega (arith, leb→le _ _ h))

at_scale-nonneg :
    (a : Decimal) (s : ℕ) → is_negative a ≡ false → leb_ℤ (pos 0) (at_scale a s) ≡ true
unfolding at_scale
at_scale-nonneg a s h = nonneg (a.coefficient) (10 ^ (s - a.scale)) h
  where
    nonneg :
        (z : ℤ) (p : ℕ)
        → (elim z [ pos _ ↦ false | negsuc _ ↦ true ]) ≡ false
        → leb_ℤ (pos 0) (sub_ℕ (pos_part z * p) (neg_part z * p)) ≡ true
    nonneg (pos c) p h = ground arith
    nonneg (negsuc c) p h = cc

-- A sum of values that are not negative is not negative.
pub add-nonneg :
    (a b : Decimal) → is_negative a ≡ false → is_negative b ≡ false → is_negative (add a b) ≡ false
unfolding add
add-nonneg a b ha hb =
    let s = common_scale a b in
    rounded-nonneg _ s
      (+ℤ-nonneg (at_scale a s) (at_scale b s) (at_scale-nonneg a s ha) (at_scale-nonneg b s hb))

-- A difference is not negative where the order says so, rounded or not.
pub sub-nonneg : (a b : Decimal) → lt a b ≡ false → is_negative (sub a b) ≡ false
unfolding lt sub
sub-nonneg a b h =
    let s = common_scale a b in rounded-nonneg _ s (-ℤ-nonneg (at_scale a s) (at_scale b s) h)

pub lt_irrefl : (a : Decimal) → lt a a ≡ false
unfolding lt
lt_irrefl a = ground arith

pub lt_asymm : (a b : Decimal) → lt a b ≡ true → lt b a ≡ false
unfolding lt
lt_asymm a b h = ground arith

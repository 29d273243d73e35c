-- ===== src/Common/Decimal/Fuel.antt =====
-- The fuel that the digits of a decimal take is enough.
use native.Mathlib.Numerals.{add-one as add_one}
use native.Mathlib.Nat.{pow-suc, pow-succ', mul-le-mul_right, div-lt_self, div-div-eq-div-mul}
use mini_lakehouse.Common.{
  ℕ, zero, suc, ◌+◌, ◌*◌, ◌/◌, ◌^◌, ◌≤◌, ◌<◌, ◌≡◌, arith, ltb, Bool-cases, inl, inr, ltb→lt, ltb→ge,
}
use mini_lakehouse.Common.Decimal.{excess, shift, precision}

ten_more : (n f : ℕ) → n * 10 * 10 ^ f ≡ n * 10 ^ suc f
ten_more n f = rw (pow-suc 10 f) (omega arith)

-- If some power of ten up to the fuel raises the dividend to the divisor's scale, `shift` does.
shift-reaches : (fuel n d : ℕ) → d * 10 ^ 27 ≤ n * 10 ^ fuel → d * 10 ^ 27 ≤ n * 10 ^ shift fuel n d
unfolding shift
shift-reaches zero n d h = h
shift-reaches (suc fuel) n d h = elim (Bool-cases (ltb n (d * 10 ^ 27))) [
  | inl small ↦
      let step = ten_more n fuel in
      let rest = shift-reaches fuel (n * 10) d (omega arith) in
      let raised = ten_more n (shift fuel (n * 10) d) in
      rw (small, add_one (shift fuel (n * 10) d)) (omega arith)
  | inr large ↦ let e = ltb→ge _ _ large in rw large (omega arith)
]

pow_bound : (d : ℕ) → (d + 10) * 10 ^ 27 ≤ 10 ^ (d + precision)
pow_bound zero = omega arith
pow_bound (suc d) =
    let rest = pow_bound d in
    let shifted : suc d + precision ≡ suc (d + precision) = omega arith in
    let e : 10 ^ (suc d + precision) ≡ 10 * 10 ^ (d + precision) =
      rw shifted (pow-succ' 10 (d + precision)) in
    omega arith

-- With the fuel `d + 28`, a positive dividend is raised to 28 digits of the quotient.
shift-le : (n d : ℕ) → 0 < n → d * 10 ^ 27 ≤ n * 10 ^ shift (d + precision) n d
shift-le n d h =
    let bound = pow_bound d in
    let scaled = mul-le-mul_right (10 ^ (d + precision)) h in
    shift-reaches (d + precision) n d (omega arith)

-- With a fuel no less than the number, dropping `excess` digits leaves at most 28.
excess-lt : (fuel c : ℕ) → c ≤ fuel → c / 10 ^ excess fuel c < 10 ^ precision
unfolding excess
excess-lt zero c h = omega arith
excess-lt (suc fuel) c h = elim (Bool-cases (ltb c (10 ^ precision))) [
  | inl fits ↦ let e = ltb→lt _ _ fits in rw fits (omega arith)
  | inr long ↦
      let large = ltb→ge _ _ long in
      let shorter = div-lt_self {n = c} {k = 10} (omega arith) (omega arith) in
      let rest = excess-lt fuel (c / 10) (omega arith) in
      rw
        (
          long,
          add_one (excess fuel (c / 10)),
          pow-succ' 10 (excess fuel (c / 10)),
          ← div-div-eq-div-mul c 10 (10 ^ excess fuel (c / 10)),
        )
        rest
]

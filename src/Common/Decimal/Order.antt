-- ===== src/Common/Decimal/Order.antt =====
-- The order of decimals, at any scale that fits them.
use native.Mathlib.Nat.{pow-suc, mul_assoc, add-mul, mul-le-mul_right, le_of_mul-le-mul_right}
use mini_lakehouse.Common.{
  ℕ, zero, suc, ◌+◌, ◌-◌, ◌*◌, ◌^◌, ◌≤◌, ◌<◌, max, ◌≡◌, sym, refl, false, arith, ltb, ltb→ge, subst,
  ◌∙◌,
}
use mini_lakehouse.Common.Int.{pos_part, neg_part, sub_ℕ, ltb_ℤ}
use mini_lakehouse.Common.Decimal
use mini_lakehouse.Common.Decimal.{Decimal, lt}

pow_add : (m n : ℕ) → 10 ^ (m + n) ≡ 10 ^ m * 10 ^ n
pow_add zero n = let e : 0 + n ≡ n = omega arith in rw e (omega arith)
pow_add (suc m) n =
    let rest = pow_add m n in
    let shifted : suc m + n ≡ suc (m + n) = omega arith in
    rw (shifted, pow-suc 10 (m + n), pow-suc 10 m, rest, mul_assoc) (omega arith)

pow_pos : (m : ℕ) → 0 < 10 ^ m
pow_pos zero = omega arith
pow_pos (suc m) = let rest = pow_pos m in rw (pow-suc 10 m) (omega arith)

-- The two parts of a decimal's coefficient at a scale.
abbrev above : Decimal → ℕ → ℕ
above a s = pos_part a.coefficient * 10 ^ (s - a.scale)

abbrev below : Decimal → ℕ → ℕ
below a s = neg_part a.coefficient * 10 ^ (s - a.scale)

-- a ≤ b at a scale.
abbrev IsLe : Decimal → Decimal → ℕ → Type 0
IsLe a b s = above a s + below b s ≤ above b s + below a s

raised : (n d s k : ℕ) → d ≤ s → n * 10 ^ (s + k - d) ≡ n * 10 ^ (s - d) * 10 ^ k
raised n d s k h =
    let e : s + k - d ≡ s - d + k = omega arith in rw (e, pow_add (s - d) k, ← mul_assoc) refl

ltb_sub : (x y u v : ℕ) → ltb_ℤ (sub_ℕ x y) (sub_ℕ u v) ≡ ltb (x + v) (u + y)
ltb_sub x y u v = ground arith

abbrev both : Decimal → Decimal → ℕ
both a b = max a.scale b.scale

lt-at :
    (a b : Decimal)
    → lt a b
      ≡ ltb (above a (both a b) + below b (both a b)) (above b (both a b) + below a (both a b))
unfolding lt Decimal.at_scale
lt-at a b = ltb_sub _ _ _ _

raised_both :
    (m n s d e k : ℕ)
    → d ≤ s
    → e ≤ s
    → m * 10 ^ (s + k - d) + n * 10 ^ (s + k - e) ≡ (m * 10 ^ (s - d) + n * 10 ^ (s - e)) * 10 ^ k
raised_both m n s d e k h j =
    rw (raised m d s k h, raised n e s k j, add-mul (m * 10 ^ (s - d)) (n * 10 ^ (s - e)) (10 ^ k))
      refl

module _ (a b : Decimal) (k : ℕ) where
  left_at :
      above a (both a b + k) + below b (both a b + k)
      ≡ (above a (both a b) + below b (both a b)) * 10 ^ k
  left_at =
      raised_both (pos_part a.coefficient) (neg_part b.coefficient) (both a b) a.scale b.scale k
        (omega arith) (omega arith)

  right_at :
      above b (both a b + k) + below a (both a b + k)
      ≡ (above b (both a b) + below a (both a b)) * 10 ^ k
  right_at =
      raised_both (pos_part b.coefficient) (neg_part a.coefficient) (both a b) b.scale a.scale k
        (omega arith) (omega arith)

  at→lt : IsLe b a (both a b + k) → lt a b ≡ false
  at→lt h =
      let small =
        le_of_mul-le-mul_right
          (subst (λ x. x ≤ (above a (both a b) + below b (both a b)) * 10 ^ k) right_at
            (subst (λ x. above b (both a b + k) + below a (both a b + k) ≤ x) left_at h))
          (pow_pos k) in
      rw (lt-at a b) (ground arith)

  lt→at : lt a b ≡ false → IsLe b a (both a b + k)
  lt→at h =
      let le = ltb→ge _ _ (sym (lt-at a b) ∙ h) in
      rw (left_at, right_at) (mul-le-mul_right (10 ^ k) le)

-- The largest of three scales is one of two and something more.
over : (m n : ℕ) → m ≤ n → m + (n - m) ≡ n
over m n h = omega arith

-- a is not below b, nor b below c, so a is not below c.
pub not_lt_trans : (a b c : Decimal) → lt a b ≡ false → lt b c ≡ false → lt a c ≡ false
not_lt_trans a b c h k =
    let s = max (both a b) (max (both b c) (both a c)) in
    let ba : IsLe b a s =
      subst (IsLe b a) (over (both a b) s (omega arith)) (lt→at a b (s - both a b) h) in
    let cb : IsLe c b s =
      subst (IsLe c b) (over (both b c) s (omega arith)) (lt→at b c (s - both b c) k) in
    let ca : IsLe c a s = omega arith in
    at→lt a c (s - both a c) (subst (IsLe c a) (sym (over (both a c) s (omega arith))) ca)

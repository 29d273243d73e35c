-- ===== src/Promotion/Gate/Targets.antt =====
-- What `_target_result` of t0-trading/src/t0_trading/promotion/engine.py asks of a target, over its
-- rows in the folds.
use mini_lakehouse.Common.{
  ℕ, ◌≤◌, ◌≡◌, ◌↔◌, refl, sym, subst, inl, inr, ◌⊎◌, Bool, true, false, not, ◌&&◌, Option, none,
  some, List, [], ◌∷◌, arith, Bool-cases, Option-cases, ◌==◌, find, All, sum_of, ok, >>=-eq-ok,
  ok_injective, some_injective, ◌∙◌,
}
use mini_lakehouse.Common.Decimal
use mini_lakehouse.Common.Decimal.{Decimal}
use mini_lakehouse.Common.Decimal.Order.{not_lt_trans}
use mini_lakehouse.Numeric.{rate}
use mini_lakehouse.Configuration.Policies.{PromotionGateVersion}
use mini_lakehouse.Promotion.{PromotionTargetResult}
use mini_lakehouse.Promotion.WalkForward.{Evaluation, Fold, Key, same_key, weighted_average}
use mini_lakehouse.Promotion.Gate.{rows_of, worst_of, lower, joined, is_missing, is_below}

-- Each fold's row of the target.
abbrev pub IsRows : Key → List Fold → List Evaluation → Type 0
IsRows k [] [] = Unit
IsRows k [] (_ ∷ _) = ⊥
IsRows k (_ ∷ _) [] = ⊥
IsRows k (f ∷ fs) (e ∷ es) = (find (λ x. same_key x.key k) f.evaluations ≡ some e) × IsRows k fs es

pub rows_of-IsRows :
    (k : Key) (fs : List Fold) (es : List Evaluation) → rows_of k fs ≡ ok es → IsRows k fs es
rows_of-IsRows k [] es h = subst (IsRows k []) (ok_injective h) tt
rows_of-IsRows k (f ∷ fs) es h = elim (Option-cases (find (λ e. same_key e.key k) f.evaluations)) [
  | inl missing ↦ absurd (ground arith)
  | inr (e, found) ↦
      let (rest, others, h1) = >>=-eq-ok (rows_of k fs) _ (rw (found, rows_of) at h) in
      subst (IsRows k (f ∷ fs)) (ok_injective h1) (found, rows_of-IsRows k fs rest others)
]

pub IsRows-rows_of :
    (k : Key) (fs : List Fold) (es : List Evaluation) → IsRows k fs es → rows_of k fs ≡ ok es
IsRows-rows_of k [] [] h = refl
IsRows-rows_of k [] (_ ∷ _) h = elim h [ ]
IsRows-rows_of k (_ ∷ _) [] h = elim h [ ]
IsRows-rows_of k (f ∷ fs) (e ∷ es) h = rw (h.0, IsRows-rows_of k fs es h.1, rows_of) refl

-- The row has an average return, which is not below the limit.
abbrev pub HasReturn : Decimal → Evaluation → Type 0
HasReturn limit e =
    (a : Decimal) × (e.average_conditional_net_return_bps ≡ some a) × (Decimal.lt a limit ≡ false)

-- There is a worst return, and it is not below the limit.
abbrev IsWorst : Decimal → Option Decimal → Type 0
IsWorst limit worst = (is_missing worst ≡ false) × (is_below worst limit ≡ false)

lower_iff :
    (a b limit : Decimal)
    → (Decimal.lt (lower a (some b)) limit ≡ false)
      ↔ ((Decimal.lt a limit ≡ false) × (Decimal.lt b limit ≡ false))
lower_iff a b limit = elim (Bool-cases (Decimal.lt b a)) [
  | inl less ↦ rw less (λ h. (not_lt_trans a b limit (Decimal.lt_asymm b a less) h, h), λ h. h.1)
  | inr more ↦ rw more (λ h. (h, not_lt_trans b a limit more h), λ h. h.0)
]

one_row_iff :
    (limit : Decimal) (e : Evaluation) (a : Option Decimal)
    → e.average_conditional_net_return_bps ≡ a
    → IsWorst limit a ↔ All (HasReturn limit) (e ∷ [])
one_row_iff limit e none here =
    (λ h. let missing = h.0 in cc, λ h. let bad = sym here ∙ h.0.1 in cc)
one_row_iff limit e (some a) here = (
  λ h. ((a, here, h.1), tt),
  λ h.
      let same : h.0.0 ≡ a = some_injective (sym h.0.1 ∙ here) in
      (refl, subst (λ k. Decimal.lt k limit ≡ false) same h.0.2),
)

more_rows_iff :
    (limit : Decimal) (e : Evaluation) (worst : Option Decimal) (rest : List Evaluation)
    (a : Option Decimal)
    → e.average_conditional_net_return_bps ≡ a
    → (IsWorst limit worst ↔ All (HasReturn limit) rest)
    → IsWorst limit (joined a worst) ↔ All (HasReturn limit) (e ∷ rest)
more_rows_iff limit e worst rest none here (to, from) =
    (λ h. let missing = h.0 in cc, λ h. let bad = sym here ∙ h.0.1 in cc)
more_rows_iff limit e none rest (some a) here (to, from) =
    (λ h. let missing = h.0 in cc, λ h. let gone = (from h.1).0 in cc)
more_rows_iff limit e (some b) rest (some a) here (to, from) =
    let (down, up) = lower_iff a b limit in
    (
      λ (_, h). let (x, y) = down h in ((a, here, x), to (refl, y)),
      λ h.
          let (c, present, fits) = h.0 in
          let same : c ≡ a = some_injective (sym present ∙ here) in
          let (_, y) = from h.1 in
          (refl, up (subst (λ k. Decimal.lt k limit ≡ false) same fits, y)),
    )

-- The worst return of the rows is there and is not below the limit exactly when each row has a
-- return that is not below it.
worst_of_iff :
    (limit : Decimal) (e : Evaluation) (es : List Evaluation)
    → IsWorst limit (worst_of (e ∷ es)) ↔ All (HasReturn limit) (e ∷ es)
worst_of_iff limit e [] = one_row_iff limit e e.average_conditional_net_return_bps refl
worst_of_iff limit e (f ∷ rest) =
    more_rows_iff limit e (worst_of (f ∷ rest)) (f ∷ rest) e.average_conditional_net_return_bps refl
      (worst_of_iff limit f rest)

abbrev pub selected_of : List Evaluation → ℕ
selected_of rows = sum_of (λ e. e.selected_count) rows

abbrev pub eligible_of : List Evaluation → ℕ
eligible_of rows = sum_of (λ e. e.eligible_outcome_count) rows

abbrev pub positive_of : List Evaluation → ℕ
positive_of rows = sum_of (λ e. e.positive_net_count) rows

-- `rate` of two counts is not below the limit.
abbrev pub IsShare : ℕ → ℕ → Decimal → Type 0
IsShare part whole limit =
    (share : Decimal) × (rate part whole ≡ ok share) × (Decimal.lt share limit ≡ false)

-- The average, where there is one, is not below the limit.
abbrev pub IsAverage : List Evaluation → Decimal → Type 0
IsAverage rows limit =
    (average : Option Decimal) × (weighted_average rows ≡ ok average)
    × (is_below average limit ≡ false)

-- What the gate asks of a target's rows.
abbrev pub MeetsRows : PromotionGateVersion → List Evaluation → Type 0
MeetsRows g rows =
    (g.minimum_selected_count ≤ selected_of rows)
    × IsShare (eligible_of rows) (selected_of rows) g.minimum_outcome_coverage_rate
    × ((eligible_of rows ≡ 0)
        ⊎ IsShare (positive_of rows) (eligible_of rows) g.minimum_positive_net_rate)
    × IsAverage rows g.minimum_average_net_return_bps
    × All (HasReturn g.minimum_worst_fold_net_return_bps) rows

-- The numbers that a target's result has of its rows.
pub record Numbers (rows : List Evaluation) (t : PromotionTargetResult) : Type 0 where
  pub selected : t.selected_count ≡ selected_of rows
  pub outcomes : t.eligible_outcome_count ≡ eligible_of rows
  pub coverage : rate (eligible_of rows) (selected_of rows) ≡ ok t.outcome_coverage_rate
  pub positives : rate (positive_of rows) (eligible_of rows) ≡ ok t.positive_net_rate
  pub average : weighted_average rows ≡ ok t.average_net_return_bps
  pub worst : t.worst_fold_net_return_bps ≡ worst_of rows

-- The share that `rate` gives decides.
rate-IsShare_iff :
    (part whole : ℕ) (limit share : Decimal)
    → rate part whole ≡ ok share
    → (Decimal.lt share limit ≡ false) ↔ IsShare part whole limit
rate-IsShare_iff part whole limit share h = (
  λ k. (share, h, k),
  λ (other, found, k). subst (λ x. Decimal.lt x limit ≡ false) (ok_injective (sym found ∙ h)) k,
)

-- The counts and returns of a result are within the gate's limits.
abbrev pub IsWithin : PromotionGateVersion → PromotionTargetResult → Type 0
IsWithin g t =
    (g.minimum_selected_count ≤ t.selected_count)
    × (Decimal.lt t.outcome_coverage_rate g.minimum_outcome_coverage_rate ≡ false)
    × (is_missing t.worst_fold_net_return_bps ≡ false)
    × ((not (t.eligible_outcome_count == 0)
          && Decimal.lt t.positive_net_rate g.minimum_positive_net_rate)
        ≡ false)
    × (is_below t.average_net_return_bps g.minimum_average_net_return_bps ≡ false)
    × (is_below t.worst_fold_net_return_bps g.minimum_worst_fold_net_return_bps ≡ false)

weighted_average-IsAverage_iff :
    (rows : List Evaluation) (limit : Decimal) (average : Option Decimal)
    → weighted_average rows ≡ ok average
    → (is_below average limit ≡ false) ↔ IsAverage rows limit
weighted_average-IsAverage_iff rows limit average h = (
  λ k. (average, h, k),
  λ (other, found, k). subst (λ x. is_below x limit ≡ false) (ok_injective (sym found ∙ h)) k,
)

either_false : (n : ℕ) (b : Bool) → (not (n == 0) && b) ≡ false → (n ≡ 0) ⊎ (b ≡ false)
either_false n true h = inl (ground arith)
either_false n false h = inr refl

false_either : (n : ℕ) (b : Bool) → (n ≡ 0) ⊎ (b ≡ false) → (not (n == 0) && b) ≡ false
false_either n b (inl h) = ground arith
false_either n b (inr h) = ground arith

-- A result of a target with a fold is within the limits exactly when its rows meet them.
pub met_limits_iff :
    (g : PromotionGateVersion) (e : Evaluation) (es : List Evaluation) (t : PromotionTargetResult)
    → Numbers (e ∷ es) t
    → IsWithin g t ↔ MeetsRows g (e ∷ es)
met_limits_iff g e es t n =
    let same = n.selected in
    let eligible = n.outcomes in
    let (coverage, coverage') = rate-IsShare_iff _ _ g.minimum_outcome_coverage_rate _ n.coverage in
    let (positive, positive') = rate-IsShare_iff _ _ g.minimum_positive_net_rate _ n.positives in
    let (average, average') =
      weighted_average-IsAverage_iff _ g.minimum_average_net_return_bps _ n.average in
    let (each, each') = worst_of_iff g.minimum_worst_fold_net_return_bps e es in
    (
      λ (enough, covered, present, shared, fair, least). (
        omega arith,
        coverage covered,
        elim (either_false _ _ shared) [
          | inl nothing ↦ inl (sym eligible ∙ nothing)
          | inr fits ↦ inr (positive fits)
        ],
        average fair,
        each (subst (IsWorst g.minimum_worst_fold_net_return_bps) n.worst (present, least)),
      ),
      λ (enough, covered, shared, fair, all).
          let (present, least) =
            subst (IsWorst g.minimum_worst_fold_net_return_bps) (sym n.worst) (each' all) in
          (
            omega arith,
            coverage' covered,
            present,
            false_either _ _ (elim shared [
              | inl nothing ↦ inl (eligible ∙ nothing)
              | inr fits ↦ inr (positive' fits)
            ]),
            average' fair,
            least,
          ),
    )

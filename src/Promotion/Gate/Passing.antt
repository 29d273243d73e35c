-- ===== src/Promotion/Gate/Passing.antt =====
-- When the gate of t0-trading/src/t0_trading/promotion/engine.py passes.
use mini_lakehouse.Common.{
  ℕ, ◌≤◌, ◌≡◌, ◌↔◌, ◌∙◌, refl, sym, ap, inl, inr, false, not, ◌||◌, List, [], ◌∷◌, arith, ltb, leb,
  is_empty, some, Result, err, subst, length, map, All, Bool-cases, ok, >>=-eq-ok, >>-eq-ok,
  raise_if, ok_injective, ltb→lt, ltb→ge, ◌!=◌,
}
use mini_lakehouse.Common.Decimal.{Decimal}
use mini_lakehouse.Common.Sort.{sorted, sum_of-sorted}
use mini_lakehouse.Arbitration.{ArbitrationPolicy}
use mini_lakehouse.Configuration.Policies.{
  BaselineEvaluation, PromotionGateVersion, PromotionTarget,
}
use mini_lakehouse.Promotion.{
  pending, pass, PromotionTargetResult, PromotionGateReport, validate_report, validate_target,
}
use mini_lakehouse.Promotion.WalkForward.{
  Session, WalkForwardReport, WalkForwardError, Evaluation, Fold, Key, Digests, required_sessions,
  weighted_average, evaluate_arbitrated_walk_forward,
}
use mini_lakehouse.Numeric.{rate, NumericError}
use mini_lakehouse.Promotion.WalkForward.Folds.{evaluate_arbitrated_walk_forward-folds}
use mini_lakehouse.Promotion.Gate.Targets.{
  IsRows, rows_of-IsRows, IsRows-rows_of, MeetsRows, Numbers, IsWithin, met_limits_iff, selected_of,
  eligible_of, positive_of,
}
use mini_lakehouse.Promotion.Gate.Status.{gate_status-pass, IsJudged, judged_iff}
use mini_lakehouse.Promotion.Gate.Gaps.{gap_on, holdout_gaps, holdouts_of-gaps, gaps_in-gaps}
use mini_lakehouse.Promotion.Gate.{
  Gate, waiting_target, report_with, result_with, validated, gate_status, gap_reasons, gaps_in,
  report_too_few, report_walked, evaluate_promotion_gate, not_promotion, lineage_inconsistent,
  walked, each_target, target_result, session_on, holdouts_of, rows_of, key_of, rated, name_of,
}

rated-ok : (x : Result NumericError Decimal) (y : Decimal) → rated x ≡ ok y → x ≡ ok y
rated-ok (ok x) y h = ap ok (ok_injective h)
rated-ok (err e) y h = cc

walked-ok : {A : Type 0} (x : Result WalkForwardError A) (y : A) → walked x ≡ ok y → x ≡ ok y
walked-ok (ok x) y h = ap ok (ok_injective h)
walked-ok (err e) y h = cc

-- What a target's result shows: its rows, its numbers and its status.
target_result-Numbers :
    (g : PromotionGateVersion) (report : WalkForwardReport) (target : PromotionTarget)
    (t : PromotionTargetResult)
    → target_result g report target ≡ ok t
    → (rows : List Evaluation) × (rows_of (key_of target) report.folds ≡ ok rows)
      × (Numbers rows t × IsJudged g t)
unfolding target_result
target_result-Numbers g report target t h =
    let (rows, found, h1) = >>=-eq-ok (rows_of (key_of target) report.folds) _ h in
    let (average, mean, h2) = >>=-eq-ok (walked (weighted_average rows)) _ h1 in
    let (coverage, covered, h3) =
      >>=-eq-ok (rated (rate (eligible_of rows) (selected_of rows))) _ h2 in
    let (positives, shared, h4) =
      >>=-eq-ok (rated (rate (positive_of rows) (eligible_of rows))) _ h3 in
    let (strategy, _, h5) = >>=-eq-ok (name_of target.strategy) _ h4 in
    let made = result_with g target rows average coverage positives strategy in
    let (_, h6) = >>-eq-ok (validated (validate_target made)) (ok made) h5 in
    (
      rows,
      found,
      subst (λ x. Numbers rows x × IsJudged g x) (ok_injective h6)
          (
            record {
              selected = refl;
              outcomes = refl;
              coverage = rated-ok _ coverage covered;
              positives = rated-ok _ positives shared;
              average = walked-ok _ average mean;
              worst = refl;
            },
            refl,
          ),
    )

-- The target's row of each fold, and what the gate asks of them.
abbrev pub Meets : PromotionGateVersion → List Fold → PromotionTarget → Type 0
Meets g folds target =
    (rows : List Evaluation) × IsRows (key_of target) folds rows × MeetsRows g rows

rows-IsWithin_iff :
    (g : PromotionGateVersion) (t : PromotionTargetResult) (k : Key) (folds : List Fold)
    (rows : List Evaluation)
    → is_empty folds ≡ false
    → IsRows k folds rows
    → Numbers rows t
    → IsWithin g t ↔ MeetsRows g rows
rows-IsWithin_iff g t k [] rows h found n = cc
rows-IsWithin_iff g t k (f ∷ fs) [] h found n = elim found [ ]
rows-IsWithin_iff g t k (f ∷ fs) (e ∷ es) h found n = met_limits_iff g e es t n

target_result_iff :
    (g : PromotionGateVersion) (report : WalkForwardReport)
    → is_empty report.folds ≡ false
    → (target : PromotionTarget) (t : PromotionTargetResult) → target_result g report target ≡ ok t
    → (t.status ≡ pass) ↔ Meets g report.folds target
target_result_iff g report folded target t h =
    let key = key_of target in
    let (rows, found, numbers_judged) = target_result-Numbers g report target t h in
    let (numbers, judged) = numbers_judged in
    let each = rows_of-IsRows key report.folds rows found in
    let (within, status) = judged_iff g t judged in
    let (to, from) = rows-IsWithin_iff g t key report.folds rows folded each numbers in
    (
      λ k. (rows, each, to (within k)),
      λ (others, same, meets).
          let agree = ok_injective (sym (IsRows-rows_of key report.folds others same) ∙ found) in
          status (from (subst (MeetsRows g) agree meets)),
    )

each_target_iff :
    {A B : Type 0} (f : A → Gate B) (P : B → Type 0) (Q : A → Type 0)
    → ((x : A) (y : B) → f x ≡ ok y → P y ↔ Q x)
    → (xs : List A) (ys : List B) → each_target f xs ≡ ok ys
    → All P ys ↔ All Q xs
each_target_iff f P Q each [] ys h =
    subst (λ zs. All P zs ↔ Unit) (ok_injective h) (λ k. tt, λ k. tt)
each_target_iff f P Q each (x ∷ xs) ys h =
    let (y, one, h1) = >>=-eq-ok (f x) _ h in
    let (rest, others, h2) = >>=-eq-ok (each_target f xs) _ h1 in
    let (to, from) = each x y one in
    let (all_to, all_from) = each_target_iff f P Q each xs rest others in
    subst (λ zs. All P zs ↔ All Q (x ∷ xs)) (ok_injective h2)
      (λ k. (to k.0, all_to k.1), λ k. (from k.0, all_from k.1))

module _ (digests : Digests) (gate_digest : PromotionGateVersion → ℕ)
    (report_digest : WalkForwardReport → ℕ) (sessions : List Session) (p : BaselineEvaluation)
    (g : PromotionGateVersion) (a : ArbitrationPolicy) where
  -- There are enough sessions, they are walked forward, and the gaps of the holdouts and the rows of
  -- each of the gate's targets are within its limits.
  abbrev pub Passes : Type 0
  Passes =
      (required_sessions p ≤ length sessions)
      × (report : WalkForwardReport) × (evaluate_arbitrated_walk_forward digests sessions p a
          ≡ ok report)
      × (holdout_gaps sessions report.folds ≤ g.maximum_capture_gap_count)
      × All (Meets g report.folds) g.targets

  -- The part of it for one report.
  abbrev PassesOver : WalkForwardReport → Type 0
  PassesOver report =
      (holdout_gaps sessions report.folds ≤ g.maximum_capture_gap_count)
      × All (Meets g report.folds) g.targets

  too_few-pending :
      (r : PromotionGateReport)
      → report_too_few digests gate_digest report_digest sessions p g a ≡ ok r
      → r.status ≡ pending
  too_few-pending r h =
      let (targets, _, h1) = >>=-eq-ok (each_target waiting_target g.targets) _ h in
      let (_, h2) = >>-eq-ok _ _ h1 in ap (λ x. x.status) (sym (ok_injective h2))

  walked_iff :
      (r : PromotionGateReport)
      → report_walked digests gate_digest report_digest sessions p g a ≡ ok r
      → (report : WalkForwardReport) × (evaluate_arbitrated_walk_forward digests sessions p a
          ≡ ok report)
        × ((r.status ≡ pass) ↔ PassesOver report)
  walked_iff r h =
      let (report, made, h1) =
        >>=-eq-ok (walked (evaluate_arbitrated_walk_forward digests sessions p a)) _ h in
      let evaluated = walked-ok _ report made in
      let (_, folded) =
        evaluate_arbitrated_walk_forward-folds digests sessions p a report evaluated in
      let dates = sorted leb (holdouts_of report.folds) in
      let (held, found, h2) = >>=-eq-ok (each_target (session_on sessions) dates) _ h1 in
      let (targets, judged, h3) = >>=-eq-ok (each_target (target_result g report) g.targets) _ h2 in
      let final =
        report_with digests gate_digest report_digest sessions p g a dates (gaps_in held)
          (some (report_digest report)) (map (λ s. s.report.shadow_audit_sha256) held)
          (gate_status (gap_reasons g (gaps_in held)) targets) (gap_reasons g (gaps_in held))
          targets in
      let (_, h4) = >>-eq-ok (validated (validate_report final)) (ok final) h3 in
      let gaps : gaps_in held ≡ holdout_gaps sessions report.folds =
        gaps_in-gaps sessions dates held found
        ∙ sum_of-sorted (gap_on sessions) leb (holdouts_of report.folds)
        ∙ holdouts_of-gaps sessions report.folds in
      let (meets, passes) =
        each_target_iff (target_result g report) (λ t. t.status ≡ pass) (Meets g report.folds)
          (target_result_iff g report folded) g.targets targets judged in
      let (to, from) = gate_status-pass g (gaps_in held) targets in
      (
        report,
        evaluated,
        subst (λ x. (x.status ≡ pass) ↔ PassesOver report) (ok_injective h4)
            (
              λ k. let (few, all) = to k in (omega arith, meets all),
              λ (few, all). from (omega arith, passes all),
            ),
      )

  -- A promotion gate's report passes exactly when there are as many sessions as a fold requires, the
  -- sessions of the folds' holdouts have together no more capture gaps than the gate's maximum, and
  -- each of the gate's targets has, in every fold's row of it, an average return not below the worst
  -- return that the gate asks for, and, over all rows, the selections, the outcome coverage, the
  -- rate of positive returns (where there are outcomes) and the average return (where there is one).
  pub evaluate_promotion_gate_iff :
      (r : PromotionGateReport)
      → evaluate_promotion_gate digests gate_digest report_digest sessions p g a ≡ ok r
      → (r.status ≡ pass) ↔ Passes
  unfolding evaluate_promotion_gate
  evaluate_promotion_gate_iff r h =
      let (_, h1) = >>-eq-ok (raise_if (not p.is_promotion) not_promotion) _ h in
      let (_, h2) =
        >>-eq-ok
          (raise_if (g.evaluation_version != p.version || g.arbitration_version != a.version)
            lineage_inconsistent)
          _ h1 in
      elim (Bool-cases (ltb (length sessions) (required_sessions p))) [
        | inl few ↦
            let waits = too_few-pending r (rw few at h2) in
            let less = ltb→lt _ _ few in (λ k. cc, λ k. let many = k.0 in absurd (omega arith))
        | inr enough ↦
            let (report, made, (to, from)) = walked_iff r (rw enough at h2) in
            (
              λ k. let (gaps, meets) = to k in (ltb→ge _ _ enough, report, made, gaps, meets),
              λ (_, other, again, gaps, meets).
                  from (subst PassesOver (ok_injective (sym again ∙ made)) (gaps, meets)),
            )
      ]

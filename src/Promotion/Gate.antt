-- ===== src/Promotion/Gate.antt =====
-- The gate of t0-trading/src/t0_trading/promotion/engine.py over the walk-forward report.
pub mod Passing
pub mod Targets
pub mod Status
pub mod Gaps
mod Tests
use mini_lakehouse.Common.{
  ℕ, ◌+◌, Bool, true, false, not, ◌&&◌, ◌||◌, Option, none, some, List, [], ◌∷◌, ◌++◌, map, ltb,
  ◌==◌, ◌!=◌, any, find, find_last, is_empty, length, sum_of, Result, err, ok, ◌>>=◌, ◌>>◌,
  raise_if, if◌then◌else◌,
}
use mini_lakehouse.Common.Sort.{sorted}
use mini_lakehouse.Common.Decimal
use mini_lakehouse.Common.Decimal.{Decimal}
use mini_lakehouse.Numeric.{rate, NumericError}
use mini_lakehouse.Common.{leb}
use mini_lakehouse.Candidate.{
  BaselineName, name_id, mean_reversion, momentum_pullback, vic_vhm_relative,
}
use mini_lakehouse.Arbitration.{ArbitrationPolicy}
use mini_lakehouse.Configuration.Policies.{
  BaselineEvaluation, PromotionGateVersion, PromotionTarget,
}
use mini_lakehouse.Promotion.{
  PromotionError, PromotionStatus, pending, pass, fail, is_fail, is_pending, PromotionReason,
  insufficient_sessions, capture_gaps, insufficient_selections, missing_fold_outcomes,
  outcome_coverage, positive_net_rate, average_net_return, worst_fold_net_return,
  PromotionTargetResult, validate_target, PromotionGateReport, validate_report,
}
use mini_lakehouse.Promotion.WalkForward.{
  WalkForwardError, Evaluation, Fold, Session, WalkForwardReport, Digests, Key, same_key,
  weighted_average, evaluate_arbitrated_walk_forward, required_sessions,
}

pub data GateError : Type 0 where
  not_promotion lineage_inconsistent unknown_target unknown_strategy missing_session : GateError
  walk_forward : WalkForwardError → GateError
  invalid : PromotionError → GateError
  numeric : NumericError → GateError

abbrev pub Gate : Type 0 → Type 0
Gate = Result GateError

abbrev pub walked : {A : Type 0} → Result WalkForwardError A → Gate A
walked (ok x) = ok x
walked (err e) = err (walk_forward e)

abbrev pub validated : {A : Type 0} → Result PromotionError A → Gate A
validated (ok x) = ok x
validated (err e) = err (invalid e)

abbrev pub rated : Result NumericError Decimal → Gate Decimal
rated (ok x) = ok x
rated (err e) = err (numeric e)

-- `BaselineName` of a text: any other is refused when the record is built.
abbrev pub name_of : ℕ → Gate BaselineName
name_of n =
    elim (find (λ b. name_id b == n) (mean_reversion ∷ momentum_pullback ∷ vic_vhm_relative ∷ [])) [
      | none ↦ err unknown_strategy
      | some b ↦ ok b
    ]

abbrev pub key_of : PromotionTarget → Key
key_of t = record { strategy = t.strategy; symbol = t.symbol; horizon_seconds = t.horizon_seconds }

-- The target's row of each fold; the search that finds none raises `StopIteration`.
abbrev pub rows_of : Key → List Fold → Gate (List Evaluation)
rows_of k [] = ok []
rows_of k (f ∷ fs) = elim (find (λ e. same_key e.key k) f.evaluations) [
  | none ↦ err unknown_target
  | some e ↦ rows_of k fs >>= λ rest. ok (e ∷ rest)
]

abbrev pub lower : Decimal → Option Decimal → Decimal
lower a none = a
lower a (some b) = if Decimal.lt b a then b else a

abbrev pub joined : Option Decimal → Option Decimal → Option Decimal
joined none worst = none
joined (some a) none = none
joined (some a) (some b) = some (lower a (some b))

-- `min(fold_returns)` where every row has a return, else `None`.
abbrev pub worst_of : List Evaluation → Option Decimal
worst_of [] = none
worst_of (e ∷ []) = e.average_conditional_net_return_bps
worst_of (e ∷ f ∷ rest) = joined e.average_conditional_net_return_bps (worst_of (f ∷ rest))

abbrev pub when_ : Bool → PromotionReason → List PromotionReason
when_ test reason = if test then reason ∷ [] else []

abbrev pub is_missing : Option Decimal → Bool
is_missing none = true
is_missing (some _) = false

abbrev pub is_below : Option Decimal → Decimal → Bool
is_below none limit = false
is_below (some a) limit = Decimal.lt a limit

-- `pending` and `failed` of a target.
abbrev pub pending_reasons : PromotionGateVersion → ℕ → Option Decimal → List PromotionReason
pending_reasons g selected worst =
    if ltb selected g.minimum_selected_count
    then insufficient_selections ∷ []
    else when_ (is_missing worst) missing_fold_outcomes

abbrev pub failed_reasons :
    PromotionGateVersion
    → ℕ
    → ℕ
    → Decimal
    → Decimal
    → Option Decimal
    → Option Decimal
    → List PromotionReason
failed_reasons g selected eligible coverage positive average worst =
    if ltb selected g.minimum_selected_count
    then []
    else when_ (Decimal.lt coverage g.minimum_outcome_coverage_rate) outcome_coverage
      ++ (when_ (not (eligible == 0) && Decimal.lt positive g.minimum_positive_net_rate)
            positive_net_rate
          ++ (when_ (is_below average g.minimum_average_net_return_bps) average_net_return
              ++ when_ (is_below worst g.minimum_worst_fold_net_return_bps) worst_fold_net_return))

abbrev pub target_status : List PromotionReason → List PromotionReason → PromotionStatus
target_status [] [] = pass
target_status (_ ∷ _) [] = pending
target_status waiting (_ ∷ _) = fail

-- The result of a target's rows, with the rates and the average over them.
abbrev pub result_with :
    PromotionGateVersion
    → PromotionTarget
    → List Evaluation
    → Option Decimal
    → Decimal
    → Decimal
    → BaselineName
    → PromotionTargetResult
result_with g target rows average coverage positives strategy =
    let selected = sum_of (λ e. e.selected_count) rows in
    let eligible = sum_of (λ e. e.eligible_outcome_count) rows in
    let worst = worst_of rows in
    let waiting = pending_reasons g selected worst in
    let failed = failed_reasons g selected eligible coverage positives average worst in
    record {
      strategy = strategy;
      symbol = target.symbol;
      horizon_seconds = target.horizon_seconds;
      status = target_status waiting failed;
      reasons = waiting ++ failed;
      selected_count = selected;
      eligible_outcome_count = eligible;
      positive_net_count = sum_of (λ e. e.positive_net_count) rows;
      outcome_coverage_rate = coverage;
      positive_net_rate = positives;
      average_net_return_bps = average;
      worst_fold_net_return_bps = worst;
    }

-- `_target_result`
unfoldable pub target_result :
    PromotionGateVersion → WalkForwardReport → PromotionTarget → Gate PromotionTargetResult
target_result g report target = do
  rows ← rows_of (key_of target) report.folds
  let selected = sum_of (λ e. e.selected_count) rows
  let eligible = sum_of (λ e. e.eligible_outcome_count) rows
  let positive = sum_of (λ e. e.positive_net_count) rows
  average ← walked (weighted_average rows)
  coverage ← rated (rate eligible selected)
  positives ← rated (rate positive eligible)
  strategy ← name_of target.strategy
  let result = result_with g target rows average coverage positives strategy
  validated (validate_target result)
  ok result

-- A target of too few sessions.
abbrev pub waiting_target : PromotionTarget → Gate PromotionTargetResult
waiting_target target = do
  strategy ← name_of target.strategy
  let result : PromotionTargetResult = record {
    strategy = strategy;
    symbol = target.symbol;
    horizon_seconds = target.horizon_seconds;
    status = pending;
    reasons = insufficient_selections ∷ [];
    selected_count = 0;
    eligible_outcome_count = 0;
    positive_net_count = 0;
    outcome_coverage_rate = Decimal.whole 0;
    positive_net_rate = Decimal.whole 0;
    average_net_return_bps = none;
    worst_fold_net_return_bps = none;
  }
  validated (validate_target result)
  ok result

abbrev pub each_target : {A B : Type 0} → (A → Gate B) → List A → Gate (List B)
each_target f [] = ok []
each_target f (x ∷ xs) = do y ← f x; ys ← each_target f xs; ok (y ∷ ys)

-- The holdouts of all folds, sorted.
abbrev pub holdouts_of : List Fold → List ℕ
holdouts_of [] = []
holdouts_of (f ∷ fs) = f.dates.holdout_dates ++ holdouts_of fs

abbrev pub session_on : List Session → ℕ → Gate Session
session_on sessions date = elim (find_last (λ s. s.date == date) sessions) [
  | none ↦ err missing_session
  | some s ↦ ok s
]

abbrev pub gate_status : List PromotionReason → List PromotionTargetResult → PromotionStatus
gate_status reasons targets =
    if not (is_empty reasons) || any (λ t. is_fail t.status) targets
    then fail
    else if any (λ t. is_pending t.status) targets
    then pending
    else pass

abbrev pub gap_reasons : PromotionGateVersion → ℕ → List PromotionReason
gap_reasons g gaps = if ltb g.maximum_capture_gap_count gaps then capture_gaps ∷ [] else []

abbrev pub gaps_in : List Session → ℕ
gaps_in sessions = sum_of (λ s. s.report.capture_gap_count) sessions

module _ (digests : Digests) (gate_digest : PromotionGateVersion → ℕ)
    (report_digest : WalkForwardReport → ℕ) (sessions : List Session) (p : BaselineEvaluation)
    (g : PromotionGateVersion) (a : ArbitrationPolicy) where
  -- The report without what the sessions decide.
  abbrev pub report_with :
      List ℕ
      → ℕ
      → Option ℕ
      → List ℕ
      → PromotionStatus
      → List PromotionReason
      → List PromotionTargetResult
      → PromotionGateReport
  report_with holdout_dates gaps digest audits status reasons targets = record {
    gate_version = g.version;
    gate_configuration_sha256 = gate_digest g;
    evaluation_version = p.version;
    evaluation_configuration_sha256 = digests.evaluation_digest p;
    arbitration_version = a.version;
    arbitration_configuration_sha256 = digests.arbitration_digest a;
    required_session_count = required_sessions p;
    observed_session_count = length sessions;
    holdout_dates = holdout_dates;
    capture_gap_count = gaps;
    walk_forward_sha256 = digest;
    shadow_audit_sha256s = audits;
    status = status;
    reasons = reasons;
    targets = targets;
  }

  abbrev pub built_report : PromotionGateReport → Gate PromotionGateReport
  built_report r = validated (validate_report r) >> ok r

  abbrev pub report_too_few : Gate PromotionGateReport
  report_too_few = do
    targets ← each_target waiting_target g.targets
    built_report (report_with [] 0 none [] pending (insufficient_sessions ∷ []) targets)

  abbrev pub report_walked : Gate PromotionGateReport
  report_walked = do
    report ← walked (evaluate_arbitrated_walk_forward digests sessions p a)
    let dates = sorted leb (holdouts_of report.folds)
    holdouts ← each_target (session_on sessions) dates
    let gaps = gaps_in holdouts
    targets ← each_target (target_result g report) g.targets
    built_report (
        report_with dates gaps (some (report_digest report))
          (map (λ s. s.report.shadow_audit_sha256) holdouts)
          (gate_status (gap_reasons g gaps) targets) (gap_reasons g gaps) targets)

  unfoldable pub evaluate_promotion_gate : Gate PromotionGateReport
  evaluate_promotion_gate = do
    raise_if (not p.is_promotion) not_promotion
    raise_if (g.evaluation_version != p.version || g.arbitration_version != a.version)
        lineage_inconsistent
    if ltb (length sessions) (required_sessions p) then report_too_few else report_walked

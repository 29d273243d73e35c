-- ===== src/Promotion.antt =====
-- The promotion evidence of t0-trading/src/t0_trading/promotion/model.py that paper execution
-- reads: the gate report and its targets. Names, versions and digests are numbers.
pub mod WalkForward
pub mod Gate
use mini_lakehouse.Common.{
  ℕ, Bool, true, false, not, ◌&&◌, ◌||◌, Option, List, [], ◌∷◌, map, ltb, ◌==◌, ◌!=◌, any, differ,
  is_empty, is_some, length, unique_length, is_ordered_set, Result, ◌>>◌, raise_if, if◌then◌else◌,
  contains,
}
use mini_lakehouse.Common.Decimal.{Decimal}
use mini_lakehouse.Candidate.{BaselineName, name_id, is_share}

-- One constructor for each statement that raises.
pub data PromotionError : Type 0 where
  target_fields target_counts target_reasons target_status : PromotionError
  report_fields report_dates report_targets report_reasons report_status : PromotionError
  holdouts_without_report passing_without_evidence : PromotionError

pub data PromotionStatus : Type 0 where
  pending pass fail : PromotionStatus

abbrev pub is_pass : PromotionStatus → Bool
is_pass pass = true
is_pass _ = false

abbrev pub is_pending : PromotionStatus → Bool
is_pending pending = true
is_pending _ = false

abbrev pub is_fail : PromotionStatus → Bool
is_fail fail = true
is_fail _ = false

abbrev pub same_status : PromotionStatus → PromotionStatus → Bool
same_status pending s = is_pending s
same_status pass s = is_pass s
same_status fail s = is_fail s

pub data PromotionReason : Type 0 where
  insufficient_sessions capture_gaps insufficient_selections missing_fold_outcomes : PromotionReason
  outcome_coverage positive_net_rate average_net_return worst_fold_net_return : PromotionReason

-- Reasons are compared by their place in the list of names.
abbrev reason_id : PromotionReason → ℕ
reason_id insufficient_sessions = 0
reason_id capture_gaps = 1
reason_id insufficient_selections = 2
reason_id missing_fold_outcomes = 3
reason_id outcome_coverage = 4
reason_id positive_net_rate = 5
reason_id average_net_return = 6
reason_id worst_fold_net_return = 7

-- `tuple(dict.fromkeys(reasons)) != reasons`
abbrev has_repeats : List PromotionReason → Bool
has_repeats rs = unique_length (map reason_id rs) != length rs

pub record PromotionTargetResult : Type 0 where
  pub strategy : BaselineName
  pub symbol : ℕ
  pub horizon_seconds : ℕ
  pub status : PromotionStatus
  pub reasons : List PromotionReason
  pub selected_count : ℕ
  pub eligible_outcome_count : ℕ
  pub positive_net_count : ℕ
  pub outcome_coverage_rate : Decimal
  pub positive_net_rate : Decimal
  pub average_net_return_bps : Option Decimal
  pub worst_fold_net_return_bps : Option Decimal

-- The bounds of the fields, then `validate_result`.
unfoldable pub validate_target : PromotionTargetResult → Result PromotionError Unit
validate_target t = do
  raise_if
      (ltb t.horizon_seconds 1
        || not (is_share t.outcome_coverage_rate)
        || not (is_share t.positive_net_rate))
      target_fields
  raise_if
      (ltb t.eligible_outcome_count t.positive_net_count
        || ltb t.selected_count t.eligible_outcome_count)
      target_counts
  raise_if (has_repeats t.reasons) target_reasons
  raise_if (differ (is_pass t.status) (is_empty t.reasons)) target_status

pub record PromotionGateReport : Type 0 where
  pub gate_version : ℕ
  pub gate_configuration_sha256 : ℕ
  pub evaluation_version : ℕ
  pub evaluation_configuration_sha256 : ℕ
  pub arbitration_version : ℕ
  pub arbitration_configuration_sha256 : ℕ
  pub required_session_count : ℕ
  pub observed_session_count : ℕ
  pub holdout_dates : List ℕ
  pub capture_gap_count : ℕ
  pub walk_forward_sha256 : Option ℕ
  pub shadow_audit_sha256s : List ℕ
  pub status : PromotionStatus
  pub reasons : List PromotionReason
  pub targets : List PromotionTargetResult

-- `(strategy, symbol, horizon_seconds)` of two targets agree.
abbrev same_target : PromotionTargetResult → PromotionTargetResult → Bool
same_target a b =
    name_id a.strategy == name_id b.strategy
    && a.symbol == b.symbol
    && a.horizon_seconds == b.horizon_seconds

-- `len(set(target_keys)) != len(target_keys)`
abbrev has_repeated_target : List PromotionTargetResult → Bool
has_repeated_target [] = false
has_repeated_target (t ∷ ts) = any (same_target t) ts || has_repeated_target ts

-- `expected_status`
unfoldable pub expected_status : List PromotionTargetResult → List PromotionReason → PromotionStatus
expected_status targets reasons =
    if any (λ t. is_fail t.status) targets || contains 1 (map reason_id reasons)
    then fail
    else if not (is_empty reasons) || any (λ t. is_pending t.status) targets
    then pending
    else pass

-- The bounds of the fields, then `validate_report`.
unfoldable pub validate_report : PromotionGateReport → Result PromotionError Unit
validate_report r = do
  raise_if (ltb r.required_session_count 1 || is_empty r.targets) report_fields
  raise_if (not (is_ordered_set r.holdout_dates)) report_dates
  raise_if (has_repeated_target r.targets) report_targets
  raise_if (has_repeats r.reasons) report_reasons
  raise_if (not (same_status r.status (expected_status r.targets r.reasons))) report_status
  raise_if (not (is_some r.walk_forward_sha256) && not (is_empty r.holdout_dates))
      holdouts_without_report
  raise_if
      (is_pass r.status
        && (is_empty r.holdout_dates
            || not (is_some r.walk_forward_sha256)
            || length r.shadow_audit_sha256s != length r.holdout_dates))
      passing_without_evidence

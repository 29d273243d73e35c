-- ===== src/Configuration/Policies.antt =====
-- The effective-dated policies of t0-trading/src/t0_trading/configuration.py, but for the candidate
-- arbitration's. Names are numbers in the order of the texts.
use mini_lakehouse.Common.{
  ℕ, Bool, true, false, not, ◌&&◌, ◌||◌, Option, none, some, List, [], ◌∷◌, ltb, leb, ◌==◌, ◌!=◌,
  any, is_some, is_empty, is_ordered_set, Result, ◌>>◌, raise_if, ◌%◌, ◌*◌,
}
use mini_lakehouse.Common.Sort.{sorted}
use mini_lakehouse.Common.Int.{pos}
use mini_lakehouse.Common.Decimal
use mini_lakehouse.Common.Decimal.{Decimal}
use mini_lakehouse.Configuration.{
  ConfigurationError, Effective, validate_interval, outcome_fields, outcome_horizons,
  outcome_latency, evaluation_fields, gate_fields, gate_targets, gate_thresholds, execution_fields,
  lot_misaligned, context_fields, context_windows, context_staleness, breadth_fields, regime_fields,
  breadth_basis, official_basis,
}
use mini_lakehouse.Configuration.Market.{Names, between, require_identifiers}

pub record OutcomeVersion : Type 0 where
  pub version : ℕ
  pub effective_from : ℕ
  pub effective_to : Option ℕ
  pub horizons_seconds : List ℕ
  pub order_quantity : ℕ
  pub execution_latency_milliseconds : ℕ

abbrev pub outcome_effective : Effective OutcomeVersion
outcome_effective = record {
  version_of = λ v. v.version;
  starts = λ v. v.effective_from;
  ends = λ v. v.effective_to;
}

abbrev first_of : List ℕ → ℕ
first_of [] = 0
first_of (x ∷ _) = x

-- The bounds of the fields, `validate_interval`, then `validate_outcomes`.
unfoldable pub validate_outcomes : OutcomeVersion → Result ConfigurationError Unit
validate_outcomes v = do
  raise_if (ltb v.order_quantity 1 || ltb 60000 v.execution_latency_milliseconds) outcome_fields
  validate_interval outcome_effective v
  raise_if
      (is_empty v.horizons_seconds
        || not (is_ordered_set v.horizons_seconds)
        || any (λ h. ltb h 1 || ltb 86400 h) v.horizons_seconds)
      outcome_horizons
  raise_if (leb (first_of v.horizons_seconds * 1000) v.execution_latency_milliseconds)
      outcome_latency

-- The tier: EXPLORATORY or PROMOTION.
pub record BaselineEvaluation : Type 0 where
  pub version : ℕ
  pub effective_from : ℕ
  pub effective_to : Option ℕ
  pub is_promotion : Bool
  pub development_sessions : ℕ
  pub holdout_sessions : ℕ
  pub purge_sessions : ℕ

abbrev pub evaluation_effective : Effective BaselineEvaluation
evaluation_effective = record {
  version_of = λ v. v.version;
  starts = λ v. v.effective_from;
  ends = λ v. v.effective_to;
}

unfoldable pub validate_evaluation : BaselineEvaluation → Result ConfigurationError Unit
validate_evaluation v = do
  raise_if (ltb v.development_sessions 2 || ltb v.holdout_sessions 1 || ltb v.purge_sessions 1)
      evaluation_fields
  validate_interval evaluation_effective v

pub record PromotionTarget : Type 0 where
  pub strategy : ℕ
  pub symbol : ℕ
  pub horizon_seconds : ℕ

pub record PromotionGateVersion : Type 0 where
  pub version : ℕ
  pub effective_from : ℕ
  pub effective_to : Option ℕ
  pub evaluation_version : ℕ
  pub arbitration_version : ℕ
  pub minimum_selected_count : ℕ
  pub minimum_outcome_coverage_rate : Decimal
  pub minimum_positive_net_rate : Decimal
  pub minimum_average_net_return_bps : Decimal
  pub minimum_worst_fold_net_return_bps : Decimal
  pub maximum_capture_gap_count : ℕ
  pub targets : List PromotionTarget

abbrev pub gate_effective : Effective PromotionGateVersion
gate_effective = record {
  version_of = λ v. v.version;
  starts = λ v. v.effective_from;
  ends = λ v. v.effective_to;
}

abbrev pub same_target : PromotionTarget → PromotionTarget → Bool
same_target a b =
    a.strategy == b.strategy && a.symbol == b.symbol && a.horizon_seconds == b.horizon_seconds

-- `a <= b` of the triples.
abbrev target_le : PromotionTarget → PromotionTarget → Bool
target_le a b =
    ltb a.strategy b.strategy
    || (a.strategy == b.strategy
        && (ltb a.symbol b.symbol
            || (a.symbol == b.symbol && leb a.horizon_seconds b.horizon_seconds)))

abbrev same_targets : List PromotionTarget → List PromotionTarget → Bool
same_targets [] [] = true
same_targets [] (_ ∷ _) = false
same_targets (_ ∷ _) [] = false
same_targets (a ∷ rest) (b ∷ bs) = same_target a b && same_targets rest bs

-- `len(set(keys)) != len(keys)`
abbrev has_twice : List PromotionTarget → Bool
has_twice [] = false
has_twice (a ∷ rest) = any (same_target a) rest || has_twice rest

-- `Field(ge=0, le=1)`
abbrev is_rate : Decimal → Bool
is_rate a = not (Decimal.is_negative a) && Decimal.le a (Decimal.whole 1)

-- The bounds of the fields, `validate_interval`, then `validate_targets`.
unfoldable pub validate_gate : PromotionGateVersion → Result ConfigurationError Unit
validate_gate g = do
  raise_if
      (ltb g.minimum_selected_count 1
        || not (is_rate g.minimum_outcome_coverage_rate)
        || not (is_rate g.minimum_positive_net_rate)
        || any (λ t. not (between 1 t.horizon_seconds 86400)) g.targets)
      gate_fields
  validate_interval gate_effective g
  raise_if
      (is_empty g.targets
        || has_twice g.targets
        || not (same_targets (sorted target_le g.targets) g.targets))
      gate_targets
  raise_if (Decimal.lt g.minimum_average_net_return_bps g.minimum_worst_fold_net_return_bps)
      gate_thresholds

pub record PaperExecutionVersion : Type 0 where
  pub version : ℕ
  pub effective_from : ℕ
  pub effective_to : Option ℕ
  pub arbitration_version : ℕ
  pub promotion_gate_version : ℕ
  pub context_version : ℕ
  pub order_quantity : ℕ
  pub lot_size : ℕ
  pub maximum_quote_age_seconds : ℕ
  pub limit_offset_ticks : ℕ
  pub time_in_force_seconds : ℕ

abbrev pub execution_effective : Effective PaperExecutionVersion
execution_effective = record {
  version_of = λ v. v.version;
  starts = λ v. v.effective_from;
  ends = λ v. v.effective_to;
}

-- The bounds of the fields, `validate_interval`, then `validate_execution`.
unfoldable pub validate_execution : PaperExecutionVersion → Result ConfigurationError Unit
validate_execution p = do
  raise_if
      (not (
        leb 1 p.order_quantity
        && leb 1 p.lot_size
        && between 1 p.maximum_quote_age_seconds 300
        && leb p.limit_offset_ticks 100
        && between 1 p.time_in_force_seconds 300))
      execution_fields
  validate_interval execution_effective p
  raise_if (p.order_quantity % p.lot_size != 0) lot_misaligned

pub record ContextVersion : Type 0 where
  pub version : ℕ
  pub effective_from : ℕ
  pub effective_to : Option ℕ
  pub zone_lookback_seconds : ℕ
  pub zone_minimum_observations : ℕ
  pub zone_tolerance_bps : Decimal
  -- A pair.
  pub market_windows_seconds : ℕ × ℕ
  pub index_stale_after_seconds : ℕ
  pub historical_proxy_interval_seconds : ℕ
  pub historical_proxy_stale_after_seconds : ℕ
  pub tradable_market_statuses : List ℕ
  pub trend_threshold_bps : Decimal
  pub high_volatility_threshold_bps : Decimal

abbrev pub context_effective : Effective ContextVersion
context_effective = record {
  version_of = λ v. v.version;
  starts = λ v. v.effective_from;
  ends = λ v. v.effective_to;
}

abbrev pair_list : ℕ × ℕ → List ℕ
pair_list p = p.0 ∷ p.1 ∷ []

pub record BreadthVersion : Type 0 where
  pub version : ℕ
  pub effective_from : ℕ
  pub effective_to : Option ℕ
  pub indices : List ℕ
  pub lookback_seconds : ℕ
  pub stale_after_seconds : ℕ
  pub minimum_participation : Decimal
  pub confirmation_advance_ratio : Decimal

abbrev pub breadth_effective : Effective BreadthVersion
breadth_effective = record {
  version_of = λ v. v.version;
  starts = λ v. v.effective_from;
  ends = λ v. v.effective_to;
}

-- `0.5`
abbrev half : Decimal
half = record { coefficient = pos 5; scale = 1 }

-- The basis: OFFICIAL_INDEX or CONSTITUENT_BREADTH.
pub record RegimeVersion : Type 0 where
  pub version : ℕ
  pub effective_from : ℕ
  pub effective_to : Option ℕ
  pub is_breadth : Bool
  pub reference_index : Option ℕ
  pub trend_threshold_bps : Option Decimal
  pub high_dispersion_threshold_bps : Option Decimal

abbrev pub regime_effective : Effective RegimeVersion
regime_effective = record {
  version_of = λ v. v.version;
  starts = λ v. v.effective_from;
  ends = λ v. v.effective_to;
}

-- `Field(gt=0)` of a value that may be `None`.
abbrev is_above_zero : Option Decimal → Bool
is_above_zero none = true
is_above_zero (some a) = Decimal.is_positive a

abbrev listed : Option ℕ → List ℕ
listed none = []
listed (some x) = x ∷ []

module _ (names : Names) where
  -- The bounds of the fields, `validate_interval`, then `validate_context`.
  unfoldable pub validate_context : ContextVersion → Result ConfigurationError Unit
  validate_context c = do
    raise_if
        (not (
          between 60 c.zone_lookback_seconds 86400
          && leb 2 c.zone_minimum_observations
          && Decimal.is_positive c.zone_tolerance_bps
          && between 1 c.index_stale_after_seconds 900
          && between 1 c.historical_proxy_interval_seconds 900
          && between 1 c.historical_proxy_stale_after_seconds 900
          && Decimal.is_positive c.trend_threshold_bps
          && Decimal.is_positive c.high_volatility_threshold_bps))
        context_fields
    validate_interval context_effective c
    raise_if
        (not (is_ordered_set (pair_list c.market_windows_seconds))
          || any (λ w. ltb w 1 || ltb c.zone_lookback_seconds w)
              (pair_list c.market_windows_seconds))
        context_windows
    raise_if (ltb c.historical_proxy_stale_after_seconds c.historical_proxy_interval_seconds)
        context_staleness
    require_identifiers names c.tradable_market_statuses

  -- The bounds of the fields, `validate_interval`, then `validate_breadth`.
  unfoldable pub validate_breadth : BreadthVersion → Result ConfigurationError Unit
  validate_breadth b = do
    raise_if
        (not (
          between 60 b.lookback_seconds 3600
          && b.lookback_seconds % 60 == 0
          && between 60 b.stale_after_seconds 900
          && Decimal.is_positive b.minimum_participation
          && Decimal.le b.minimum_participation (Decimal.whole 1)
          && Decimal.lt half b.confirmation_advance_ratio
          && Decimal.le b.confirmation_advance_ratio (Decimal.whole 1)))
        breadth_fields
    validate_interval breadth_effective b
    require_identifiers names b.indices

  -- `validate_basis` on each basis.
  abbrev check_basis : Bool → RegimeVersion → Result ConfigurationError Unit
  check_basis true r = do
    raise_if
        (not (
          is_some r.reference_index
          && is_some r.trend_threshold_bps
          && is_some r.high_dispersion_threshold_bps))
        breadth_basis
    require_identifiers names (listed r.reference_index)
  check_basis false r =
      raise_if
        (is_some r.reference_index
          || is_some r.trend_threshold_bps
          || is_some r.high_dispersion_threshold_bps)
        official_basis

  -- The bounds of the fields, `validate_interval`, then `validate_basis`.
  unfoldable pub validate_regime : RegimeVersion → Result ConfigurationError Unit
  validate_regime r = do
    raise_if
        (not (is_above_zero r.trend_threshold_bps && is_above_zero r.high_dispersion_threshold_bps))
        regime_fields
    validate_interval regime_effective r
    check_basis r.is_breadth r

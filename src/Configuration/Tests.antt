-- ===== src/Configuration/Tests.antt =====
-- A trading configuration of one version of each kind, and the theorems at it.
use mini_lakehouse.Common.{
  ◌≡◌, ◌↔◌, refl, inl, true, none, some, [], ◌∷◌, arith, ok, err, IsIn, sorted_set, is_ordered_set,
}
use mini_lakehouse.Common.Sort.{sorted}
use mini_lakehouse.Samples
use mini_lakehouse.Samples.{trading, closed_execution, configuration}
use mini_lakehouse.Configuration.{
  no_version, validate_interval, validate_effective_versions, is_effective, intervals_overlap,
  resolve_effective, resolve_optional,
}
use mini_lakehouse.Configuration.Market.{
  Names, validate_trading, validate_market, validate_windows, require_identifiers, validate_quality,
  validate_features,
}
use mini_lakehouse.Configuration.Policies.{execution_effective}
use mini_lakehouse.Configuration.Versions.{
  TradingConfiguration, validate_versions, resolve_paper_execution,
}
use mini_lakehouse.Configuration.Resolution.{AreValid, resolve_effective_iff, resolve_optional_iff}
use mini_lakehouse.Configuration.Versions.Coverage.{Covered, validate_versions-Covered}

abbrev names : Names
names = record { is_identifier = λ x. true; has_timezone = λ x. true }

trading_validated : validate_trading names trading ≡ ok tt
unfolding validate_trading validate_market validate_windows require_identifiers validate_quality
    validate_features validate_interval sorted sorted_set is_ordered_set
trading_validated = refl

configuration_validated : validate_versions configuration ≡ ok tt
unfolding validate_versions validate_effective_versions intervals_overlap sorted
configuration_validated = refl

executions_valid : AreValid execution_effective configuration.paper_executions
unfolding validate_effective_versions validate_interval sorted
executions_valid = (refl, (refl, (refl, tt)))

resolve_effective_iff_example :
    (resolve_effective execution_effective configuration.paper_executions 15
      ≡ ok (closed_execution 2 12 20))
    ↔ (IsIn (closed_execution 2 12 20) configuration.paper_executions
        × (is_effective execution_effective 15 (closed_execution 2 12 20) ≡ true))
resolve_effective_iff_example =
    resolve_effective_iff execution_effective configuration.paper_executions 15
      (closed_execution 2 12 20) executions_valid

resolve_optional_iff_example :
    (resolve_optional execution_effective configuration.paper_executions 15
      ≡ ok (some (closed_execution 2 12 20)))
    ↔ (IsIn (closed_execution 2 12 20) configuration.paper_executions
        × (is_effective execution_effective 15 (closed_execution 2 12 20) ≡ true))
resolve_optional_iff_example =
    resolve_optional_iff execution_effective configuration.paper_executions 15
      (closed_execution 2 12 20) executions_valid

gap_refused : resolve_paper_execution configuration 10 ≡ err no_version
unfolding resolve_paper_execution resolve_optional
gap_refused = refl

early_none : resolve_paper_execution configuration 2 ≡ ok none
unfolding resolve_paper_execution resolve_optional
early_none = refl

validate_versions-Covered_example : Covered configuration (closed_execution 1 3 9) 5
validate_versions-Covered_example =
    validate_versions-Covered configuration (closed_execution 1 3 9) 9 5 configuration_validated
      (inl refl) refl (omega arith) (omega arith)

-- An execution without a last date may name a gate that ends.
abbrev outlived : TradingConfiguration
outlived = record configuration {
  promotion_gates = record Samples.gate { evaluation_version = 2; effective_to = some 30 } ∷ [];
  paper_executions = record Samples.policy { effective_from = 3 } ∷ [];
}

outlived_validated : validate_versions outlived ≡ ok tt
unfolding validate_versions validate_effective_versions intervals_overlap sorted
outlived_validated = refl

-- ===== src/Execution/Readiness.antt =====
-- The admission that t0-trading/src/t0_trading/execution/readiness.py hands to the paper runtime, and
-- the research lineage of promotion/model.py and promotion/evidence.py that it carries.
use mini_lakehouse.Common.{
  ℕ, Bool, true, not, ◌&&◌, ◌||◌, Option, none, some, leb, ◌==◌, ◌!=◌, Result, err, ok, ◌>>=◌, ◌>>◌,
  raise_if,
}
use mini_lakehouse.Controls.{CostPolicy, cost_contains}
use mini_lakehouse.Arbitration.{ArbitrationPolicy}
use mini_lakehouse.Promotion.{PromotionGateReport, is_pass}
use mini_lakehouse.Configuration.{ConfigurationError}
use mini_lakehouse.Configuration.Market.{TradingVersion}
use mini_lakehouse.Configuration.Policies.{
  OutcomeVersion, ContextVersion, RegimeVersion, BreadthVersion,
}
use mini_lakehouse.Configuration.Versions.{
  TradingConfiguration, resolve, resolve_outcomes, resolve_context, resolve_breadth, resolve_regime,
  resolve_candidate_arbitration,
}

pub data ReadinessError : Type 0 where
  no_lineage_basis invalid_mode : ReadinessError
  unresolved : ConfigurationError → ReadinessError

abbrev resolved : {A : Type 0} → Result ConfigurationError A → Result ReadinessError A
resolved (ok x) = ok x
resolved (err e) = err (unresolved e)

pub record ResearchLineage : Type 0 where
  pub baseline_version : ℕ
  pub arbitration_configuration_sha256 : ℕ
  pub feature_configuration_sha256 : ℕ
  pub context_configuration_sha256 : ℕ
  pub outcome_configuration_sha256 : ℕ
  pub cost_policy_sha256 : ℕ

-- `==` of two lineages.
abbrev pub same_lineage : ResearchLineage → ResearchLineage → Bool
same_lineage a b =
    a.baseline_version == b.baseline_version
    && a.arbitration_configuration_sha256 == b.arbitration_configuration_sha256
    && a.feature_configuration_sha256 == b.feature_configuration_sha256
    && a.context_configuration_sha256 == b.context_configuration_sha256
    && a.outcome_configuration_sha256 == b.outcome_configuration_sha256
    && a.cost_policy_sha256 == b.cost_policy_sha256

pub record PaperReadiness : Type 0 where
  pub trade_date : ℕ
  pub previous_session : ℕ
  -- The mode: OBSERVE_ONLY or PAPER.
  pub is_paper : Bool
  -- The reason is PROMOTION_PASS.
  pub is_promotion_pass : Bool
  pub promotion : Option PromotionGateReport
  pub research_lineage : Option ResearchLineage

abbrev lacks_pass : Option PromotionGateReport → Bool
lacks_pass none = true
lacks_pass (some p) = not (is_pass p.status)

abbrev differs_in_arbitration : Option ResearchLineage → Option PromotionGateReport → Bool
differs_in_arbitration (some l) (some p) =
    l.arbitration_configuration_sha256 != p.arbitration_configuration_sha256
differs_in_arbitration none p = true
differs_in_arbitration (some l) none = true

-- `validate_mode`
unfoldable pub validate_mode : PaperReadiness → Result ReadinessError Unit
validate_mode r =
    raise_if
      (r.is_paper
        && (not r.is_promotion_pass
            || lacks_pass r.promotion
            || differs_in_arbitration r.research_lineage r.promotion
            || leb r.trade_date r.previous_session))
      invalid_mode

-- The digests of the policies, which end in `hashlib`, and the version of the baselines.
pub record Identities : Type 0 where
  pub baseline : ℕ
  pub arbitration_digest : ArbitrationPolicy → ℕ
  pub trading_digest : TradingVersion → ℕ
  pub context_identity : ContextVersion → Option RegimeVersion → Option BreadthVersion → ℕ
  pub outcome_digest : OutcomeVersion → ℕ
  pub assumptions_digest : CostPolicy → ℕ

module _ (ids : Identities) (c : TradingConfiguration) (trade_date : ℕ) (costs : CostPolicy) where
  abbrev lineage_under : Option ArbitrationPolicy → Result ReadinessError ResearchLineage
  lineage_under none = err no_lineage_basis
  lineage_under (some arbitration) = do
    raise_if (not (cost_contains costs trade_date)) no_lineage_basis
    trading ← resolved (resolve c trade_date)
    context ← resolved (resolve_context c trade_date)
    regime ← resolved (resolve_regime c trade_date)
    breadth ← resolved (resolve_breadth c trade_date)
    outcomes ← resolved (resolve_outcomes c trade_date)
    ok (record {
      baseline_version = ids.baseline;
      arbitration_configuration_sha256 = ids.arbitration_digest arbitration;
      feature_configuration_sha256 = ids.trading_digest trading;
      context_configuration_sha256 = ids.context_identity context regime breadth;
      outcome_configuration_sha256 = ids.outcome_digest outcomes;
      cost_policy_sha256 = ids.assumptions_digest costs;
    })

  unfoldable pub resolve_research_lineage : Result ReadinessError ResearchLineage
  resolve_research_lineage = resolved (resolve_candidate_arbitration c trade_date) >>= lineage_under

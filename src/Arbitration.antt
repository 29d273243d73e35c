-- ===== src/Arbitration.antt =====
-- Candidate arbitration: t0-trading/src/t0_trading/arbitration/model.py and the policy that
-- configuration.py gives it.
pub mod Engine
pub mod Decide
mod Tests
use mini_lakehouse.Common.{
  ℕ, Bool, true, false, not, ◌&&◌, ◌||◌, Option, none, some, List, [], ◌∷◌, map, ltb, leb, ◌==◌,
  ◌!=◌, is_some, same_id, is_empty, any, length, unique_length, same_list, sorted_set, Result, ◌>>◌,
  raise_if, range, max,
}
use mini_lakehouse.Common.Sort.{sorted}
use mini_lakehouse.Common.Decimal
use mini_lakehouse.Common.Decimal.{Decimal}
use mini_lakehouse.Controls.{covers, ends_before}
use mini_lakehouse.Candidate.{BaselineCandidate, name_id, is_candidate, is_share}

-- One constructor for each statement that raises.
pub data ArbitrationError : Type 0 where
  -- model.py
  result_fields selected_result rejected_result missing_lineage unexpected_lineage :
      ArbitrationError
  selected_lineage : ArbitrationError
  -- configuration.py
  policy_fields effective_order rule_fields rule_strategies rule_priorities short_cooldown :
      ArbitrationError
  -- engine.py
  no_candidates mixed_clocks stale_clock uncovered_date other_version repeated_candidate :
      ArbitrationError
  incomplete_matrix missing_key : ArbitrationError

pub data RejectionReason : Type 0 where
  upstream_blocked below_minimum_strength lower_strategy_priority : RejectionReason
  symbol_cooldown clock_capacity : RejectionReason

-- `{"LOWER_STRATEGY_PRIORITY", "SYMBOL_COOLDOWN"}`
abbrev is_conflict : RejectionReason → Bool
is_conflict lower_strategy_priority = true
is_conflict symbol_cooldown = true
is_conflict _ = false

abbrev names_conflict : Option RejectionReason → Bool
names_conflict none = false
names_conflict (some r) = is_conflict r

-- The three other reasons.
abbrev names_no_conflict : Option RejectionReason → Bool
names_no_conflict none = false
names_no_conflict (some r) = not (is_conflict r)

pub record CandidateArbitration : Type 0 where
  pub arbitration_version : ℕ
  pub arbitration_configuration_sha256 : ℕ
  pub candidate_version : ℕ
  pub candidate_sha256 : ℕ
  pub strategy : ℕ
  pub symbol : ℕ
  pub trade_date : ℕ
  pub decision_at : ℕ
  pub horizon_seconds : ℕ
  pub strength : Decimal
  -- The status: SELECTED or REJECTED.
  pub is_selected : Bool
  pub rejection_reason : Option RejectionReason
  pub priority : Option ℕ
  pub selected_candidate_sha256 : Option ℕ

-- The bounds of the fields, then `validate_result`.
unfoldable pub validate_result : CandidateArbitration → Result ArbitrationError Unit
validate_result a = do
  raise_if (ltb a.horizon_seconds 1 || ltb 86400 a.horizon_seconds || not (is_share a.strength))
      result_fields
  raise_if
      (a.is_selected
        && (is_some a.rejection_reason
            || not (is_some a.priority)
            || not (same_id a.selected_candidate_sha256 (some a.candidate_sha256))))
      selected_result
  raise_if (not a.is_selected && (not (is_some a.rejection_reason) || is_some a.priority))
      rejected_result
  raise_if (names_conflict a.rejection_reason && not (is_some a.selected_candidate_sha256))
      missing_lineage
  raise_if (names_no_conflict a.rejection_reason && is_some a.selected_candidate_sha256)
      unexpected_lineage

-- `require_selected_candidate`, over the digest of the candidate.
unfoldable pub require_selected_candidate :
    (BaselineCandidate → ℕ)
    → BaselineCandidate
    → CandidateArbitration
    → Result ArbitrationError Unit
require_selected_candidate digest c a =
    raise_if
      (not (is_candidate c)
        || not a.is_selected
        || a.candidate_version != c.baseline_version
        || a.candidate_sha256 != digest c
        || a.strategy != name_id c.strategy
        || a.symbol != c.symbol
        || a.trade_date != c.trade_date
        || a.decision_at != c.decision_at
        || not (Decimal.eq a.strength c.strength)
        || not (same_id a.selected_candidate_sha256 (some (digest c))))
      selected_lineage

pub record ArbitrationRule : Type 0 where
  pub strategy : ℕ
  pub priority : ℕ
  pub minimum_strength : Decimal
  pub horizon_seconds : ℕ

pub record ArbitrationPolicy : Type 0 where
  pub version : ℕ
  pub effective_from : ℕ
  pub effective_to : Option ℕ
  pub candidate_version : ℕ
  pub cooldown_seconds : ℕ
  pub maximum_selections_per_clock : ℕ
  pub rules : List ArbitrationRule

-- `_EffectiveVersion.contains`
abbrev pub policy_contains : ArbitrationPolicy → ℕ → Bool
policy_contains p date = covers p.effective_from p.effective_to date

abbrev strategies : List ArbitrationRule → List ℕ
strategies rs = map (λ r. r.strategy) rs

abbrev priorities : List ArbitrationRule → List ℕ
priorities rs = map (λ r. r.priority) rs

-- `max(rule.horizon_seconds for rule in rules)`
abbrev longest_horizon : List ArbitrationRule → ℕ
longest_horizon [] = 0
longest_horizon (r ∷ rs) = max r.horizon_seconds (longest_horizon rs)

abbrev is_rule : ArbitrationRule → Bool
is_rule r = is_share r.minimum_strength && leb 1 r.horizon_seconds && leb r.horizon_seconds 86400

-- The bounds of the fields, `validate_interval`, then `validate_rules`.
unfoldable pub validate_rules : ArbitrationPolicy → Result ArbitrationError Unit
validate_rules p = do
  raise_if (any (λ r. not (is_rule r)) p.rules) rule_fields
  raise_if (ltb 86400 p.cooldown_seconds || ltb p.maximum_selections_per_clock 1) policy_fields
  raise_if (ends_before p.effective_to p.effective_from) effective_order
  raise_if (is_empty p.rules || unique_length (strategies p.rules) != length p.rules)
      rule_strategies
  raise_if (not (same_list (sorted leb (priorities p.rules)) (range 0 (length p.rules))))
      rule_priorities
  raise_if (ltb p.cooldown_seconds (longest_horizon p.rules)) short_cooldown

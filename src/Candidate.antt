-- ===== src/Candidate.antt =====
-- The candidates of t0-trading/src/t0_trading/strategy/baselines.py. Names are numbers: the code
-- only compares them.
use mini_lakehouse.Common.{
  ℕ, Bool, true, false, not, ◌&&◌, ◌||◌, Option, none, some, List, [], ◌∷◌, map, ◌!=◌, is_some, any,
  is_empty, length, unique_length, same_list, Result, ◌>>◌, raise_if,
}
use mini_lakehouse.Common.Decimal
use mini_lakehouse.Common.Decimal.{Decimal}

-- One constructor for each statement that raises.
pub data CandidateError : Type 0 where
  group_strength group_contract candidate_strength peer_lineage relative_peer : CandidateError
  regime_lineage partial_context repeated_reasons unmatched_group unconfirmed blocked_strength :
      CandidateError

pub data BaselineName : Type 0 where
  mean_reversion momentum_pullback vic_vhm_relative : BaselineName

-- The name as it stands in configurations and in other records.
abbrev pub name_id : BaselineName → ℕ
name_id mean_reversion = 0
name_id momentum_pullback = 1
name_id vic_vhm_relative = 2

abbrev is_relative : BaselineName → Bool
is_relative vic_vhm_relative = true
is_relative _ = false

-- `strategy in {"mean_reversion", "vic_vhm_relative"}`
abbrev needs_every_group : BaselineName → Bool
needs_every_group momentum_pullback = false
needs_every_group _ = true

-- The nine group names of `BASELINE_GROUP_NAMES` are numbered in the order of the source.
abbrev group_names : BaselineName → List ℕ
group_names mean_reversion = 0 ∷ 1 ∷ 2 ∷ []
group_names momentum_pullback = 3 ∷ 4 ∷ 5 ∷ []
group_names vic_vhm_relative = 6 ∷ 7 ∷ 8 ∷ []

pub record GroupEvidence : Type 0 where
  pub name : ℕ
  pub strength : Option Decimal

-- `status == "MATCH"`
abbrev pub is_match : GroupEvidence → Bool
is_match g = elim g.strength [ none ↦ false | some s ↦ Decimal.is_positive s ]

-- `Field(ge=0, le=1)`
abbrev pub is_share : Decimal → Bool
is_share s = not (Decimal.is_negative s) && Decimal.le s (Decimal.whole 1)

abbrev absent_or_share : Option Decimal → Bool
absent_or_share none = true
absent_or_share (some s) = is_share s

pub record BaselineCandidate : Type 0 where
  pub baseline_version : ℕ
  pub strategy : BaselineName
  pub symbol : ℕ
  pub trade_date : ℕ
  pub decision_at : ℕ
  pub feature_snapshot_sha256 : ℕ
  pub peer_feature_snapshot_sha256 : Option ℕ
  pub context_snapshot_sha256 : Option ℕ
  pub context_version : Option ℕ
  pub context_configuration_sha256 : Option ℕ
  pub context_data_mode : Option ℕ
  -- `none` is "UNKNOWN".
  pub market_regime : Option ℕ
  pub first_group : GroupEvidence
  pub second_group : GroupEvidence
  pub third_group : GroupEvidence
  pub strength : Decimal
  pub block_reasons : List ℕ

abbrev pub is_candidate : BaselineCandidate → Bool
is_candidate c = is_empty c.block_reasons

abbrev groups : BaselineCandidate → List GroupEvidence
groups c = c.first_group ∷ c.second_group ∷ c.third_group ∷ []

-- `context_lineage` is wholly present or wholly absent.
abbrev context_parts : BaselineCandidate → List Bool
context_parts c =
    is_some c.context_snapshot_sha256
    ∷ is_some c.context_version
    ∷ is_some c.context_configuration_sha256
    ∷ is_some c.context_data_mode
    ∷ []

-- The bounds of the fields, then `validate_candidate`.
unfoldable pub validate_candidate : BaselineCandidate → Result CandidateError Unit
validate_candidate c = do
  raise_if (any (λ g. not (absent_or_share g.strength)) (groups c)) group_strength
  raise_if (not (is_share c.strength)) candidate_strength
  raise_if (not (same_list (map (λ g. g.name) (groups c)) (group_names c.strategy))) group_contract
  raise_if (not (is_relative c.strategy) && is_some c.peer_feature_snapshot_sha256) peer_lineage
  raise_if
      (is_relative c.strategy && not (is_some c.peer_feature_snapshot_sha256) && is_candidate c)
      relative_peer
  raise_if (not (is_some c.context_snapshot_sha256) && is_some c.market_regime) regime_lineage
  raise_if (any not (context_parts c) && any (λ b. b) (context_parts c)) partial_context
  raise_if (unique_length c.block_reasons != length c.block_reasons) repeated_reasons
  raise_if
      (is_candidate c && needs_every_group c.strategy && any (λ g. not (is_match g)) (groups c))
      unmatched_group
  raise_if
      (is_candidate c
        && (not (is_match c.first_group)
            || not (is_match c.second_group || is_match c.third_group)
            || Decimal.eq c.strength Decimal.zero_vnd))
      unconfirmed
  raise_if (not (is_candidate c) && not (Decimal.eq c.strength Decimal.zero_vnd)) blocked_strength

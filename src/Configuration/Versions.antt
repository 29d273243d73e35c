-- ===== src/Configuration/Versions.antt =====
-- `TradingConfiguration` of t0-trading/src/t0_trading/configuration.py: the policies together and
-- their resolution by date.
pub mod Coverage
use mini_lakehouse.Common.{
  ℕ, ◌+◌, if◌then◌else◌, Bool, true, false, not, ◌&&◌, ◌||◌, Option, none, some, List, [], ◌∷◌, map,
  leb, ltb, ◌==◌, ◌!=◌, any, contains, is_empty, keep_if, find_last, length, unique_length, Result,
  err, ok, ◌>>=◌, ◌>>◌, raise_if, same_list, sorted_set,
}
use mini_lakehouse.Common.Sort.{sorted}
use mini_lakehouse.Controls.{covers}
use mini_lakehouse.Arbitration.{ArbitrationPolicy, ArbitrationRule}
use mini_lakehouse.Configuration.{
  ConfigurationError, Effective, is_effective, validate_effective_versions, intervals_overlap,
  resolve_effective, resolve_optional, evaluation_order, breadth_membership, regime_breadth,
  regime_reference, arbitration_horizons, gate_unknown, gate_start, gate_end, gate_rules,
  gate_markets, execution_unknown, execution_outside, capture_scope_missing,
}
use mini_lakehouse.Configuration.Market.{Capture, TradingVersion, trading_effective, is_subset}
use mini_lakehouse.Configuration.Policies.{
  OutcomeVersion, outcome_effective, BaselineEvaluation, evaluation_effective, PromotionGateVersion,
  PromotionTarget, gate_effective, PaperExecutionVersion, execution_effective, ContextVersion,
  context_effective, BreadthVersion, breadth_effective, RegimeVersion, regime_effective,
}

pub record TradingConfiguration : Type 0 where
  pub capture : Capture
  pub versions : List TradingVersion
  pub outcomes : List OutcomeVersion
  pub baseline_evaluations : List BaselineEvaluation
  pub candidate_arbitrations : List ArbitrationPolicy
  pub promotion_gates : List PromotionGateVersion
  pub paper_executions : List PaperExecutionVersion
  pub contexts : List ContextVersion
  pub breadth : List BreadthVersion
  pub regimes : List RegimeVersion

abbrev pub arbitration_effective : Effective ArbitrationPolicy
arbitration_effective = record {
  version_of = λ v. v.version;
  starts = λ v. v.effective_from;
  ends = λ v. v.effective_to;
}

-- `tuple(item for item in self.baseline_evaluations if item.tier == tier)`
abbrev of_tier : Bool → List BaselineEvaluation → List BaselineEvaluation
of_tier tier xs = keep_if (λ v. if tier then v.is_promotion else not v.is_promotion) xs

-- `resolve_breadth`, `resolve_regime`
abbrev resolve_if_any :
    {A : Type 0} → Effective A → List A → ℕ → Result ConfigurationError (Option A)
resolve_if_any e [] value = ok none
resolve_if_any e (x ∷ xs) value = resolve_optional e (x ∷ xs) value

-- `(item.tier, item.effective_from)`: EXPLORATORY is before PROMOTION.
abbrev evaluation_le : BaselineEvaluation → BaselineEvaluation → Bool
evaluation_le a b =
    if a.is_promotion
    then b.is_promotion && leb a.effective_from b.effective_from
    else b.is_promotion || leb a.effective_from b.effective_from

abbrev tier_id : BaselineEvaluation → ℕ
tier_id v = if v.is_promotion then 1 else 0

-- A stable sort by the keys leaves the values as they are exactly if it leaves their keys.
abbrev is_canonical : List BaselineEvaluation → Bool
is_canonical xs =
    let ordered = sorted evaluation_le xs in
    same_list (map tier_id ordered) (map tier_id xs)
    && same_list (map (λ v. v.effective_from) ordered) (map (λ v. v.effective_from) xs)

-- `{item.version: item for item in values}.get(version)`: the last item of a name is kept.
abbrev pub lookup : {A : Type 0} → Effective A → ℕ → List A → Option A
lookup e version xs = find_last (λ v. e.version_of v == version) xs

-- `for item in values: ...` of a check that raises.
abbrev pub each :
    {A : Type 0} → (A → Result ConfigurationError Unit) → List A → Result ConfigurationError Unit
each check [] = ok tt
each check (x ∷ xs) = check x >> each check xs

-- The dates after the breadth policies that end where the regime is effective.
abbrev boundaries_after : RegimeVersion → List BreadthVersion → List ℕ
boundaries_after r [] = []
boundaries_after r (b ∷ bs) =
    let later = boundaries_after r bs in
    elim b.effective_to [
      | none ↦ later
      | some last ↦ if is_effective regime_effective (last + 1) r then (last + 1) ∷ later else later
    ]

abbrev refers_in : Option ℕ → List ℕ → Bool
refers_in none indices = false
refers_in (some index) indices = contains index indices

abbrev check_boundary : RegimeVersion → Option BreadthVersion → Result ConfigurationError Unit
check_boundary r none = err regime_breadth
check_boundary r (some b) = raise_if (not (refers_in r.reference_index b.indices)) regime_breadth

-- The loop body over the regimes.
abbrev check_regime : List BreadthVersion → RegimeVersion → Result ConfigurationError Unit
check_regime bs r =
    if r.is_breadth
    then (each (λ value. resolve_if_any breadth_effective bs value >>= check_boundary r)
          (sorted_set (r.effective_from ∷ boundaries_after r bs))
        >> raise_if
            (any
              (λ b.
                intervals_overlap regime_effective breadth_effective r b
                && not (refers_in r.reference_index b.indices))
              bs)
            regime_reference)
    else ok tt

abbrev check_breadth : Capture → List BreadthVersion → Result ConfigurationError Unit
check_breadth c [] = ok tt
check_breadth c (b ∷ bs) = do
  validate_effective_versions breadth_effective (b ∷ bs)
  raise_if (any (λ v. not (is_subset v.indices c.membership_indices)) (b ∷ bs)) breadth_membership

abbrev check_regimes : List BreadthVersion → List RegimeVersion → Result ConfigurationError Unit
check_regimes bs [] = ok tt
check_regimes bs (r ∷ rs) = do
  validate_effective_versions regime_effective (r ∷ rs)
  each (check_regime bs) (r ∷ rs)

abbrev horizons_of : List ArbitrationRule → List ℕ
horizons_of rules = map (λ r. r.horizon_seconds) rules

-- The loop body over the candidate arbitrations.
abbrev pub check_arbitration :
    List OutcomeVersion → ArbitrationPolicy → Result ConfigurationError Unit
check_arbitration outcomes a =
    let overlapping =
      keep_if (λ o. intervals_overlap arbitration_effective outcome_effective a o) outcomes in
    raise_if
      (is_empty overlapping
        || any (λ o. not (is_subset (horizons_of a.rules) o.horizons_seconds)) overlapping)
      arbitration_horizons

-- `rules[target.strategy].horizon_seconds` differs, or there is no such rule.
abbrev breaks_rule : List ArbitrationRule → PromotionTarget → Bool
breaks_rule rules t = elim (find_last (λ r. r.strategy == t.strategy) rules) [
  | none ↦ true
  | some r ↦ t.horizon_seconds != r.horizon_seconds
]

-- `gate.effective_to is not None and not item.contains(gate.effective_to)`
abbrev pub misses_end : {A : Type 0} → Effective A → Option ℕ → A → Bool
misses_end e none item = false
misses_end e (some last) item = not (is_effective e last item)

abbrev lacks_target : List PromotionTarget → TradingVersion → Bool
lacks_target targets v = any (λ t. not (contains t.symbol v.market.symbols)) targets

-- The loop body over the gates, after its references are found.
abbrev pub check_gate_parts :
    List TradingVersion
    → PromotionGateVersion
    → BaselineEvaluation
    → ArbitrationPolicy
    → Result ConfigurationError Unit
check_gate_parts versions g evaluation arbitration = do
  raise_if
      (not (is_effective evaluation_effective g.effective_from evaluation)
        || not (is_effective arbitration_effective g.effective_from arbitration))
      gate_start
  raise_if
      (misses_end evaluation_effective g.effective_to evaluation
        || misses_end arbitration_effective g.effective_to arbitration)
      gate_end
  raise_if (any (breaks_rule arbitration.rules) g.targets) gate_rules
  let overlapping = keep_if (λ v. intervals_overlap gate_effective trading_effective g v) versions
  raise_if (is_empty overlapping || any (lacks_target g.targets) overlapping) gate_markets

abbrev pub check_found_gate :
    List TradingVersion
    → PromotionGateVersion
    → Option BaselineEvaluation
    → Option ArbitrationPolicy
    → Result ConfigurationError Unit
check_found_gate versions g (some evaluation) (some arbitration) =
    check_gate_parts versions g evaluation arbitration
check_found_gate versions g (some evaluation) none = err gate_unknown
check_found_gate versions g none found = err gate_unknown

abbrev check_gate : TradingConfiguration → PromotionGateVersion → Result ConfigurationError Unit
check_gate c g =
    check_found_gate c.versions g
      (lookup evaluation_effective g.evaluation_version (of_tier true c.baseline_evaluations))
      (lookup arbitration_effective g.arbitration_version c.candidate_arbitrations)

-- `not item.contains(execution.effective_from) or (...)` of one referenced policy.
abbrev pub misses : {A : Type 0} → Effective A → PaperExecutionVersion → A → Bool
misses e p item = not (is_effective e p.effective_from item) || misses_end e p.effective_to item

-- The loop body over the paper executions, after its references are found.
abbrev pub check_found_execution :
    PaperExecutionVersion
    → Option ArbitrationPolicy
    → Option PromotionGateVersion
    → Option ContextVersion
    → Result ConfigurationError Unit
check_found_execution p (some a) (some g) (some x) =
    raise_if
      (g.arbitration_version != a.version
        || misses arbitration_effective p a
        || misses gate_effective p g
        || misses context_effective p x)
      execution_outside
check_found_execution p none g x = err execution_unknown
check_found_execution p (some a) none x = err execution_unknown
check_found_execution p (some a) (some g) none = err execution_unknown

abbrev pub check_execution :
    TradingConfiguration → PaperExecutionVersion → Result ConfigurationError Unit
check_execution c p =
    check_found_execution p
      (lookup arbitration_effective p.arbitration_version c.candidate_arbitrations)
      (lookup gate_effective p.promotion_gate_version c.promotion_gates)
      (lookup context_effective p.context_version c.contexts)

-- The checks of the baseline evaluations: of each tier, then of all.
abbrev pub check_evaluations : List BaselineEvaluation → Result ConfigurationError Unit
check_evaluations xs = do
  validate_effective_versions evaluation_effective (of_tier false xs)
  validate_effective_versions evaluation_effective (of_tier true xs)
  raise_if (not (is_canonical xs) || unique_length (map (λ v. v.version) xs) != length xs)
      evaluation_order

-- `validate_versions`
unfoldable pub validate_versions : TradingConfiguration → Result ConfigurationError Unit
validate_versions c = do
  validate_effective_versions trading_effective c.versions
  validate_effective_versions outcome_effective c.outcomes
  check_evaluations c.baseline_evaluations
  validate_effective_versions arbitration_effective c.candidate_arbitrations
  validate_effective_versions gate_effective c.promotion_gates
  validate_effective_versions execution_effective c.paper_executions
  validate_effective_versions context_effective c.contexts
  check_breadth c.capture c.breadth
  check_regimes c.breadth c.regimes
  each (check_arbitration c.outcomes) c.candidate_arbitrations
  each (check_gate c) c.promotion_gates
  each (check_execution c) c.paper_executions

unfoldable pub resolve : TradingConfiguration → ℕ → Result ConfigurationError TradingVersion
resolve c value = resolve_effective trading_effective c.versions value

unfoldable pub capture_scope : TradingConfiguration → ℕ → Result ConfigurationError Capture
unfolding resolve
capture_scope c value = do
  version ← resolve c value
  raise_if
      (not (is_subset version.market.symbols c.capture.capture_symbols)
        || not (is_subset version.market.indices c.capture.capture_indices)
        || not (is_subset version.market.status_markets c.capture.capture_markets))
      capture_scope_missing
  ok c.capture

unfoldable pub resolve_outcomes :
    TradingConfiguration → ℕ → Result ConfigurationError OutcomeVersion
resolve_outcomes c value = resolve_effective outcome_effective c.outcomes value

unfoldable pub resolve_context : TradingConfiguration → ℕ → Result ConfigurationError ContextVersion
resolve_context c value = resolve_effective context_effective c.contexts value

unfoldable pub resolve_breadth :
    TradingConfiguration → ℕ → Result ConfigurationError (Option BreadthVersion)
resolve_breadth c value = resolve_if_any breadth_effective c.breadth value

unfoldable pub resolve_regime :
    TradingConfiguration → ℕ → Result ConfigurationError (Option RegimeVersion)
resolve_regime c value = resolve_if_any regime_effective c.regimes value

unfoldable pub resolve_candidate_arbitration :
    TradingConfiguration → ℕ → Result ConfigurationError (Option ArbitrationPolicy)
resolve_candidate_arbitration c value =
    resolve_optional arbitration_effective c.candidate_arbitrations value

unfoldable pub resolve_promotion_gate :
    TradingConfiguration → ℕ → Result ConfigurationError (Option PromotionGateVersion)
resolve_promotion_gate c value = resolve_optional gate_effective c.promotion_gates value

unfoldable pub resolve_paper_execution :
    TradingConfiguration → ℕ → Result ConfigurationError (Option PaperExecutionVersion)
resolve_paper_execution c value = resolve_optional execution_effective c.paper_executions value

unfoldable pub resolve_baseline_evaluation :
    TradingConfiguration → ℕ → Bool → Result ConfigurationError BaselineEvaluation
resolve_baseline_evaluation c value tier =
    resolve_effective evaluation_effective (of_tier tier c.baseline_evaluations) value

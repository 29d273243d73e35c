-- ===== src/Configuration.antt =====
-- Effective-dated versions: the first part of t0-trading/src/t0_trading/configuration.py. Dates are
-- ordinals, and the names of versions are numbers.
pub mod Market
pub mod Policies
pub mod Versions
pub mod Resolution
mod Tests
use mini_lakehouse.Common.{
  ℕ, Bool, true, false, not, ◌&&◌, ◌||◌, Option, none, some, List, [], ◌∷◌, map, ltb, leb, ◌!=◌,
  any, is_empty, keep_if, length, unique_length, same_list, Result, ok, err, ◌>>◌, raise_if,
  if◌then◌else◌,
}
use mini_lakehouse.Common.Sort.{sorted}
use mini_lakehouse.Controls.{covers, ends_before}

-- One constructor for each statement that raises.
pub data ConfigurationError : Type 0 where
  interval_order versions_order version_names versions_overlap : ConfigurationError
  no_version several_versions : ConfigurationError
  identifiers aware_times session_duration session_order : ConfigurationError
  market_fields unknown_timezone bar_alignment session_alignment : ConfigurationError
  quality_fields capture_disjoint capture_membership : ConfigurationError
  feature_fields feature_cadence feature_windows feature_warmup : ConfigurationError
  feature_sessions feature_order : ConfigurationError
  outcome_fields outcome_horizons outcome_latency evaluation_fields : ConfigurationError
  gate_fields gate_targets gate_thresholds execution_fields lot_misaligned : ConfigurationError
  context_fields context_windows context_staleness breadth_fields : ConfigurationError
  regime_fields breadth_basis official_basis : ConfigurationError
  evaluation_order breadth_membership regime_breadth regime_reference : ConfigurationError
  arbitration_horizons gate_unknown gate_start gate_end gate_rules gate_markets : ConfigurationError
  execution_unknown execution_outside capture_scope_missing : ConfigurationError

-- `_EffectiveVersion`: what every kind of version has.
pub record Effective (A : Type 0) : Type 0 where
  pub version_of : A → ℕ
  pub starts : A → ℕ
  pub ends : A → Option ℕ

-- The error of a list that has no first element is an `IndexError`.
abbrev pub starts_before : {A : Type 0} → Effective A → ℕ → List A → Result ConfigurationError Bool
starts_before e value [] = err no_version
starts_before e value (x ∷ _) = ok (ltb value (e.starts x))

abbrev pub reaches_to : Option ℕ → ℕ → Bool
reaches_to none start = true
reaches_to (some last) start = leb start last

module _ {A : Type 0} (e : Effective A) where
  open e use {version_of, starts, ends}

  -- `validate_interval`
  unfoldable pub validate_interval : A → Result ConfigurationError Unit
  validate_interval x = raise_if (ends_before (ends x) (starts x)) interval_order

  -- `contains`
  abbrev pub is_effective : ℕ → A → Bool
  is_effective value x = covers (starts x) (ends x) value

  -- `previous.effective_to is None or previous.effective_to >= current.effective_from`
  abbrev pub reaches : A → A → Bool
  reaches x y = reaches_to (ends x) (starts y)

  -- `any(... for previous, current in pairwise(ordered))`
  abbrev pub has_overlap : List A → Bool
  has_overlap [] = false
  has_overlap (x ∷ []) = false
  has_overlap (x ∷ y ∷ zs) = reaches x y || has_overlap (y ∷ zs)

  abbrev by_start : A → A → Bool
  by_start x y = leb (starts x) (starts y)

  -- `_validate_effective_versions`. The stable sort leaves the values as they are exactly if it
  -- leaves their first dates.
  unfoldable pub validate_effective_versions : List A → Result ConfigurationError Unit
  validate_effective_versions xs = do
    raise_if (is_empty xs || not (same_list (map starts (sorted by_start xs)) (map starts xs)))
        versions_order
    raise_if (unique_length (map version_of xs) != length xs) version_names
    raise_if (has_overlap xs) versions_overlap

  -- `_intervals_overlap`
  unfoldable pub intervals_overlap : {B : Type 0} → Effective B → A → B → Bool
  intervals_overlap f x y =
      not (ends_before (ends x) (f.starts y)) && not (ends_before (f.ends y) (starts x))

  -- `matches`
  abbrev pub matches : ℕ → List A → List A
  matches value xs = keep_if (is_effective value) xs

  -- `len(matches) != 1`, then `matches[0]`
  abbrev pub only_match : List A → Result ConfigurationError A
  only_match [] = err no_version
  only_match (x ∷ []) = ok x
  only_match (_ ∷ _) = err several_versions

  -- `_resolve_effective`
  unfoldable pub resolve_effective : List A → ℕ → Result ConfigurationError A
  resolve_effective xs value = only_match (matches value xs)

  abbrev pub before_first : Result ConfigurationError Bool → Result ConfigurationError (Option A)
  before_first (err x) = err x
  before_first (ok true) = ok none
  before_first (ok false) = err no_version

  abbrev pub optional_match :
      Result ConfigurationError Bool → List A → Result ConfigurationError (Option A)
  optional_match early [] = before_first early
  optional_match early (x ∷ []) = ok (some x)
  optional_match early (_ ∷ _) = err several_versions

  -- `_resolve_optional`
  unfoldable pub resolve_optional : List A → ℕ → Result ConfigurationError (Option A)
  resolve_optional xs value = optional_match (starts_before e value xs) (matches value xs)

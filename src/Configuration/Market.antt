-- ===== src/Configuration/Market.antt =====
-- The market, capture and feature parts of t0-trading/src/t0_trading/configuration.py. Whether a text
-- is an upper-case identifier and whether the time zone database has a zone are parameters.
use mini_lakehouse.Common.{
  ℕ, Option, Bool, not, ◌&&◌, ◌||◌, List, [], ◌∷◌, ltb, leb, ◌!=◌, any, contains, is_empty, length,
  unique_length, same_list, is_ordered_set, last?, none, some, Result, ◌>>◌, raise_if, ◌%◌, ◌/◌,
}
use mini_lakehouse.Common.Sort.{sorted}
use mini_lakehouse.Configuration.{
  ConfigurationError, Effective, validate_interval, aware_times, session_duration, session_order,
  unknown_timezone, identifiers, market_fields, bar_alignment, session_alignment, quality_fields,
  capture_disjoint, capture_membership, feature_fields, feature_cadence, feature_windows,
  feature_warmup, feature_sessions, feature_order,
}

-- `set(xs).issubset(ys)`
abbrev pub is_subset : List ℕ → List ℕ → Bool
is_subset xs ys = not (any (λ x. not (contains x ys)) xs)

-- `set(xs) & set(ys)`
abbrev meets : List ℕ → List ℕ → Bool
meets xs ys = any (λ x. contains x ys) xs

-- `low <= value <= high`
abbrev pub between : ℕ → ℕ → ℕ → Bool
between low value high = leb low value && leb value high

-- `datetime.time`: microseconds of the day, and whether it has a time zone.
pub record Time : Type 0 where
  pub micros : ℕ
  pub is_aware : Bool

-- A window is its start and its end.
pub record SessionSchedule : Type 0 where
  pub opening_auction : Time × Time
  pub continuous_am : Time × Time
  pub continuous_pm : Time × Time
  pub closing_auction : Time × Time

abbrev pub windows : SessionSchedule → List (Time × Time)
windows s = s.opening_auction ∷ s.continuous_am ∷ s.continuous_pm ∷ s.closing_auction ∷ []

abbrev pub times_of : List (Time × Time) → List Time
times_of [] = []
times_of (w ∷ ws) = w.0 ∷ w.1 ∷ times_of ws

abbrev pub starts_late : Time × Time → Bool
starts_late w = leb w.1.micros w.0.micros

-- `validate_windows`
unfoldable pub validate_windows : SessionSchedule → Result ConfigurationError Unit
validate_windows s = do
  raise_if (any (λ t. t.is_aware) (times_of (windows s))) aware_times
  raise_if (any starts_late (windows s)) session_duration
  raise_if
      (s.opening_auction.1.micros != s.continuous_am.0.micros
        || leb s.continuous_pm.0.micros s.continuous_am.1.micros
        || s.continuous_pm.1.micros != s.closing_auction.0.micros)
      session_order

pub record Market : Type 0 where
  pub timezone : ℕ
  pub symbols : List ℕ
  pub indices : List ℕ
  pub status_markets : List ℕ
  pub quote_depth : ℕ
  pub bar_interval_seconds : ℕ
  pub sessions : SessionSchedule

-- `value.hour * 3600 + value.minute * 60 + value.second`
abbrev seconds_of : Time → ℕ
seconds_of t = t.micros / 1000000

pub record DataQuality : Type 0 where
  pub trade_stale_after_seconds : ℕ
  pub quote_stale_after_seconds : ℕ

unfoldable pub validate_quality : DataQuality → Result ConfigurationError Unit
validate_quality q =
    raise_if (ltb q.trade_stale_after_seconds 1 || ltb q.quote_stale_after_seconds 1) quality_fields

pub record Capture : Type 0 where
  pub capture_symbols : List ℕ
  pub capture_indices : List ℕ
  pub membership_indices : List ℕ
  pub capture_markets : List ℕ

pub record Feature : Type 0 where
  pub version : ℕ
  pub cadence_seconds : ℕ
  pub windows_seconds : List ℕ
  pub warmup_seconds : ℕ
  -- By their places in `_SESSION_ORDER`.
  pub decision_sessions : List ℕ

-- `windows[-1]`, of windows that are not empty.
abbrev last_of : List ℕ → ℕ
last_of xs = elim (last? xs) [ none ↦ 0 | some x ↦ x ]

-- The bounds of the fields, then `validate_features`. A cadence of zero is out of bounds.
unfoldable pub validate_features : Feature → Result ConfigurationError Unit
validate_features f = do
  raise_if (not (between 1 f.cadence_seconds 60 && between 1 f.warmup_seconds 86400)) feature_fields
  raise_if (60 % f.cadence_seconds != 0) feature_cadence
  raise_if
      (is_empty f.windows_seconds
        || not (is_ordered_set f.windows_seconds)
        || any (λ w. ltb w f.cadence_seconds || ltb 86400 w || w % f.cadence_seconds != 0)
            f.windows_seconds)
      feature_windows
  raise_if
      (ltb f.warmup_seconds (last_of f.windows_seconds)
        || f.warmup_seconds % f.cadence_seconds != 0)
      feature_warmup
  raise_if
      (is_empty f.decision_sessions
        || unique_length f.decision_sessions != length f.decision_sessions)
      feature_sessions
  raise_if (not (same_list (sorted leb f.decision_sessions) f.decision_sessions)) feature_order

pub record TradingVersion : Type 0 where
  pub version : ℕ
  pub effective_from : ℕ
  pub effective_to : Option ℕ
  pub market : Market
  pub data_quality : DataQuality
  pub features : Feature

abbrev pub trading_effective : Effective TradingVersion
trading_effective = record {
  version_of = λ v. v.version;
  starts = λ v. v.effective_from;
  ends = λ v. v.effective_to;
}

-- What the code takes from `str` and from the time zone database.
pub record Names : Type 0 where
  pub is_identifier : ℕ → Bool
  pub has_timezone : ℕ → Bool

module _ (names : Names) where
  -- `_require_identifiers`
  unfoldable pub require_identifiers : List ℕ → Result ConfigurationError Unit
  require_identifiers values =
      raise_if
        (is_empty values
          || length values != unique_length values
          || any (λ v. not (names.is_identifier v)) values)
        identifiers

  -- The bounds of the fields, then `validate_market`.
  unfoldable pub validate_market : Market → Result ConfigurationError Unit
  validate_market m = do
    raise_if (not (between 1 m.quote_depth 10) || ltb m.bar_interval_seconds 1) market_fields
    validate_windows m.sessions
    raise_if (not (names.has_timezone m.timezone)) unknown_timezone
    require_identifiers m.symbols
    require_identifiers m.indices
    require_identifiers m.status_markets
    raise_if (60 % m.bar_interval_seconds != 0 && m.bar_interval_seconds % 60 != 0) bar_alignment
    raise_if (any (λ t. seconds_of t % m.bar_interval_seconds != 0) (times_of (windows m.sessions)))
        session_alignment

  -- `validate_scope`
  unfoldable pub validate_scope : Capture → Result ConfigurationError Unit
  validate_scope c = do
    require_identifiers c.capture_symbols
    require_identifiers c.capture_indices
    require_identifiers c.membership_indices
    require_identifiers c.capture_markets
    raise_if (meets c.capture_symbols c.capture_indices) capture_disjoint
    raise_if (not (is_subset c.membership_indices c.capture_indices)) capture_membership

  -- The validators of a `TradingVersion`'s parts and its own.
  unfoldable pub validate_trading : TradingVersion → Result ConfigurationError Unit
  validate_trading v = do
    validate_market v.market
    validate_quality v.data_quality
    validate_features v.features
    validate_interval trading_effective v

-- ===== src/Promotion/WalkForward.antt =====
-- The walk-forward report of t0-trading/src/t0_trading/promotion/engine.py, over the session records of
-- promotion/model.py. The sessions are the entries of a mapping: no two have one date.
pub mod Folds
mod Tests
use mini_lakehouse.Common.{
  ℕ, zero, suc, ◌+◌, ◌-◌, Bool, true, false, not, ◌&&◌, ◌||◌, Option, none, some, List, [], ◌∷◌,
  ◌++◌, map, ltb, leb, ◌==◌, ◌!=◌, any, differ, find_last, is_empty, is_some, is_ordered_set,
  same_list, range, take, drop, keep_if, last?, length, sum_of, Result, err, ok, ◌>>=◌, ◌>>◌,
  raise_if, if◌then◌else◌,
}
use mini_lakehouse.Common.Sort.{sorted}
use mini_lakehouse.Common.Decimal
use mini_lakehouse.Common.Decimal.{Decimal}
use mini_lakehouse.Numeric.{ratio, NumericError}
use mini_lakehouse.Controls.{covers}
use mini_lakehouse.Arbitration.{ArbitrationPolicy, policy_contains}
use mini_lakehouse.Configuration.{is_effective}
use mini_lakehouse.Configuration.Policies.{BaselineEvaluation, evaluation_effective}
use mini_lakehouse.Execution.Readiness.{ResearchLineage, same_lineage}

-- One constructor for each statement that raises.
pub data WalkForwardError : Type 0 where
  evaluation_counts evaluation_average mixed_targets too_few_sessions policy_mismatch :
      WalkForwardError
  lineage_mismatch matrix_mismatch missing_key fold_fields fold_dates fold_targets :
      WalkForwardError
  fold_numbers fold_matrices pending_dates no_folds : WalkForwardError
  numeric : NumericError → WalkForwardError

abbrev pub Walk : Type 0 → Type 0
Walk = Result WalkForwardError

-- The target of an evaluation: its strategy, symbol and horizon.
pub record Key : Type 0 where
  pub strategy : ℕ
  pub symbol : ℕ
  pub horizon_seconds : ℕ

abbrev pub same_key : Key → Key → Bool
same_key a b =
    a.strategy == b.strategy && a.symbol == b.symbol && a.horizon_seconds == b.horizon_seconds

abbrev pub same_keys : List Key → List Key → Bool
same_keys [] [] = true
same_keys [] (_ ∷ _) = false
same_keys (_ ∷ _) [] = false
same_keys (a ∷ rest) (b ∷ bs) = same_key a b && same_keys rest bs

abbrev has_repeated_key : List Key → Bool
has_repeated_key [] = false
has_repeated_key (k ∷ ks) = any (same_key k) ks || has_repeated_key ks

-- `ArbitratedSessionEvaluation` and `ArbitratedHoldoutEvaluation`, which have the same fields.
pub record Evaluation : Type 0 where
  pub key : Key
  pub selected_count : ℕ
  pub eligible_outcome_count : ℕ
  pub positive_net_count : ℕ
  pub average_conditional_net_return_bps : Option Decimal

-- `validate_counts` of both.
unfoldable pub validate_counts : Evaluation → Walk Unit
validate_counts e = do
  raise_if
      (ltb e.key.horizon_seconds 1
        || ltb e.eligible_outcome_count e.positive_net_count
        || ltb e.selected_count e.eligible_outcome_count)
      evaluation_counts
  raise_if
      (differ (e.eligible_outcome_count == 0) (not (is_some e.average_conditional_net_return_bps)))
      evaluation_average

abbrev pub keys_of : List Evaluation → List Key
keys_of es = map (λ e. e.key) es

-- The fields of `ArbitratedSessionReport` that the engine reads; its lineage as a record.
pub record SessionReport : Type 0 where
  pub trade_date : ℕ
  pub baseline_version : ℕ
  pub arbitration_version : ℕ
  pub arbitration_configuration_sha256 : ℕ
  pub research_lineage : ResearchLineage
  pub shadow_audit_sha256 : ℕ
  pub capture_gap_count : ℕ
  pub evaluations : List Evaluation

pub record Session : Type 0 where
  pub date : ℕ
  pub report : SessionReport

-- The dates of `ArbitratedWalkForwardFold`.
pub record FoldDates : Type 0 where
  pub fold : ℕ
  pub development_dates : List ℕ
  pub purged_dates : List ℕ
  pub holdout_dates : List ℕ

pub record Fold : Type 0 where
  pub dates : FoldDates
  pub evaluations : List Evaluation

-- `not (last < first)`, where both lists have elements.
abbrev touches : List ℕ → List ℕ → Bool
touches before [] = true
touches before (y ∷ ys) = elim (last? before) [ none ↦ true | some x ↦ leb y x ]

-- The bounds of the fields, then `validate_fold`; the first purged date is not after the last one if
-- they are in order.
unfoldable pub validate_fold : Fold → Walk Unit
validate_fold f = do
  raise_if
      (ltb f.dates.fold 1
        || is_empty f.dates.development_dates
        || is_empty f.dates.purged_dates
        || is_empty f.dates.holdout_dates
        || is_empty f.evaluations)
      fold_fields
  raise_if
      (not (is_ordered_set f.dates.development_dates)
        || not (is_ordered_set f.dates.purged_dates)
        || not (is_ordered_set f.dates.holdout_dates)
        || touches f.dates.development_dates f.dates.purged_dates
        || touches f.dates.purged_dates f.dates.holdout_dates)
      fold_dates
  raise_if (has_repeated_key (keys_of f.evaluations)) fold_targets

pub record WalkForwardReport : Type 0 where
  pub evaluation_version : ℕ
  pub evaluation_configuration_sha256 : ℕ
  pub arbitration_version : ℕ
  pub arbitration_configuration_sha256 : ℕ
  pub session_sha256s : List ℕ
  pub folds : List Fold
  pub pending_dates : List ℕ

-- `folds[-1].holdout_dates[-1]`
abbrev pub last_holdout : List Fold → Walk ℕ
last_holdout folds = elim (last? folds) [
  | none ↦ err no_folds
  | some f ↦ elim (last? f.dates.holdout_dates) [ none ↦ err no_folds | some x ↦ ok x ]
]

abbrev starts_early : List ℕ → ℕ → Bool
starts_early [] last = false
starts_early (x ∷ _) last = leb x last

abbrev differs_from_first : List Fold → Bool
differs_from_first [] = false
differs_from_first (f ∷ fs) =
    any (λ g. not (same_keys (keys_of g.evaluations) (keys_of f.evaluations))) (f ∷ fs)

-- `ArbitratedWalkForwardReport.validate_report`
unfoldable pub validate_walk_forward : WalkForwardReport → Walk Unit
validate_walk_forward r = do
  raise_if (is_empty r.session_sha256s || is_empty r.folds) no_folds
  raise_if (not (same_list (map (λ f. f.dates.fold) r.folds) (range 1 (length r.folds))))
      fold_numbers
  raise_if (differs_from_first r.folds) fold_matrices
  last ← last_holdout r.folds
  raise_if (not (is_ordered_set r.pending_dates) || starts_early r.pending_dates last) pending_dates

-- `dates[first:last]`
abbrev pub slice : ℕ → ℕ → List ℕ → List ℕ
slice first last dates = take (last - first) (drop first dates)

-- The dates of the fold whose holdout starts at a place.
abbrev pub fold_at : BaselineEvaluation → List ℕ → ℕ → ℕ → FoldDates
fold_at p dates number start = record {
  fold = number;
  development_dates = take (start - p.purge_sessions) dates;
  purged_dates = slice (start - p.purge_sessions) start dates;
  holdout_dates = slice start (start + p.holdout_sessions) dates;
}

-- The loop, on fuel.
unfoldable pub folds_from : ℕ → BaselineEvaluation → List ℕ → ℕ → ℕ → List FoldDates
folds_from zero p dates number start = []
folds_from (suc fuel) p dates number start =
    let later = folds_from fuel p dates (number + 1) (start + p.holdout_sessions) in
    if leb (start + p.holdout_sessions) (length dates)
    then fold_at p dates number start ∷ later
    else []

abbrev weighted : Evaluation → Decimal → Decimal
weighted e average = Decimal.mul average (Decimal.whole e.eligible_outcome_count)

abbrev weighted_returns : List Evaluation → List Decimal
weighted_returns [] = []
weighted_returns (e ∷ es) =
    let rest = weighted_returns es in
    elim e.average_conditional_net_return_bps [ none ↦ rest | some a ↦ weighted e a ∷ rest ]

abbrev pub counted : Result NumericError Decimal → Walk (Option Decimal)
counted (ok x) = ok (some x)
counted (err e) = err (numeric e)

-- `_weighted_average`
unfoldable pub weighted_average : List Evaluation → Walk (Option Decimal)
weighted_average rows =
    let eligible = sum_of (λ e. e.eligible_outcome_count) rows in
    if eligible == 0
    then ok none
    else counted (ratio (Decimal.total (weighted_returns rows)) (Decimal.whole eligible) 4)

-- `_combine`
unfoldable pub combine : List Evaluation → Walk Evaluation
combine [] = err mixed_targets
combine (e ∷ es) = do
  raise_if (any (λ x. not (same_key e.key x.key)) es) mixed_targets
  average ← weighted_average (e ∷ es)
  let combined : Evaluation = record {
    key = e.key;
    selected_count = sum_of (λ x. x.selected_count) (e ∷ es);
    eligible_outcome_count = sum_of (λ x. x.eligible_outcome_count) (e ∷ es);
    positive_net_count = sum_of (λ x. x.positive_net_count) (e ∷ es);
    average_conditional_net_return_bps = average;
  }
  validate_counts combined
  ok combined

abbrev pub each_ok : {A B : Type 0} → (A → Walk B) → List A → Walk (List B)
each_ok f [] = ok []
each_ok f (x ∷ xs) = do y ← f x; ys ← each_ok f xs; ok (y ∷ ys)

abbrev found : Option Evaluation → Walk Evaluation
found none = err missing_key
found (some e) = ok e

-- `keyed[value][key]`
abbrev pub row_of : List Session → Key → ℕ → Walk Evaluation
row_of sessions k date = elim (find_last (λ s. s.date == date) sessions) [
  | none ↦ err missing_key
  | some s ↦ found (find_last (λ e. same_key e.key k) s.report.evaluations)
]

abbrev pub evaluated : List Session → List Key → FoldDates → Walk Fold
evaluated sessions keys f = do
  rows ← each_ok (λ k. each_ok (row_of sessions k) f.holdout_dates >>= combine) keys
  let fold : Fold = record { dates = f; evaluations = rows }
  validate_fold fold
  ok fold

abbrev pub by_date : Session → Session → Bool
by_date a b = leb a.date b.date

abbrev pub mismatches : ℕ → BaselineEvaluation → ArbitrationPolicy → Session → Bool
mismatches digest p a s =
    s.report.trade_date != s.date
    || not (is_effective evaluation_effective s.date p)
    || not (policy_contains a s.date)
    || s.report.arbitration_version != a.version
    || s.report.baseline_version != a.candidate_version
    || s.report.arbitration_configuration_sha256 != digest

abbrev pub differs_in_lineage : List Session → Bool
differs_in_lineage [] = false
differs_in_lineage (s ∷ rest) =
    any (λ x. not (same_lineage x.report.research_lineage s.report.research_lineage)) rest

-- The keys of the first report.
abbrev pub matrix_of : List Session → List Key
matrix_of [] = []
matrix_of (s ∷ _) = keys_of s.report.evaluations

abbrev pub required_sessions : BaselineEvaluation → ℕ
required_sessions p = p.development_sessions + p.purge_sessions + p.holdout_sessions

-- The digests of the policies and the reports, which end in `hashlib`.
pub record Digests : Type 0 where
  pub evaluation_digest : BaselineEvaluation → ℕ
  pub arbitration_digest : ArbitrationPolicy → ℕ
  pub session_digest : SessionReport → ℕ

abbrev pub dates_of : List Session → List ℕ
dates_of sessions = map (λ s. s.date) (sorted by_date sessions)

-- The folds' dates: the loop cannot run more often than there are dates.
abbrev pub fold_dates_of : BaselineEvaluation → List ℕ → List FoldDates
fold_dates_of p dates =
    folds_from (length dates) p dates 1 (p.development_sessions + p.purge_sessions)

unfoldable pub evaluate_arbitrated_walk_forward :
    Digests → List Session → BaselineEvaluation → ArbitrationPolicy → Walk WalkForwardReport
evaluate_arbitrated_walk_forward digests sessions p a = do
  let ordered = sorted by_date sessions
  raise_if (ltb (length sessions) (required_sessions p)) too_few_sessions
  raise_if (any (mismatches (digests.arbitration_digest a) p a) ordered) policy_mismatch
  raise_if (differs_in_lineage ordered) lineage_mismatch
  raise_if (any (λ s. not (same_keys (keys_of s.report.evaluations) (matrix_of ordered))) ordered)
      matrix_mismatch
  folds ← each_ok (evaluated sessions (matrix_of ordered)) (fold_dates_of p (dates_of sessions))
  last ← last_holdout folds
  let report : WalkForwardReport = record {
    evaluation_version = p.version;
    evaluation_configuration_sha256 = digests.evaluation_digest p;
    arbitration_version = a.version;
    arbitration_configuration_sha256 = digests.arbitration_digest a;
    session_sha256s = map (λ s. digests.session_digest s.report) ordered;
    folds = folds;
    pending_dates = keep_if (λ d. ltb last d) (dates_of sessions);
  }
  validate_walk_forward report
  ok report

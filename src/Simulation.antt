-- ===== src/Simulation.antt =====
-- The requests and results of t0-trading/src/t0_trading/simulation/model.py. The pydantic checks of
-- the parts of a request are those of their own modules.
pub mod Cycle
pub mod Engine
pub mod Report
pub mod Inventory
pub mod Moves
pub mod Balance
mod Tests
use mini_lakehouse.Common.{
  ℕ, Bool, true, false, not, ◌&&◌, ◌||◌, Option, none, some, List, [], ◌∷◌, map, ltb, leb, ◌==◌,
  ◌!=◌, is_some, is_empty, any, find, contains, length, unique_length, Text, Result, ok, err, ◌>>◌,
  raise_if, differ,
}
use mini_lakehouse.Common.Decimal
use mini_lakehouse.Common.Decimal.{Decimal}
use mini_lakehouse.Controls.{
  AccountSnapshot, AccountPosition, AdvancePolicy, Basis, CostPolicy, RiskLimits, SelectionEvidence,
  cost_contains, symbols_of,
}
use mini_lakehouse.Candidate.{BaselineCandidate}
use mini_lakehouse.Arbitration.{CandidateArbitration, ArbitrationError, require_selected_candidate}
use mini_lakehouse.Outcomes.{OutcomeLabel}

-- One constructor for each statement that raises.
pub data SimulationError : Type 0 where
  -- model.py
  proposal_candidate proposal_lineage priced_ineligible missing_priority : SimulationError
  request_fields cost_period settlement_order account_date mark_symbols mark_times : SimulationError
  repeated_arbitration repeated_priority selection_cover selection_time proposal_window :
      SimulationError
  result_fields : SimulationError
  -- engine.py
  missing_execution unpriced_entry missing_net inventory_changed cash_unreconciled : SimulationError
  -- A key that a dictionary lacks, and decimal.DivisionByZero.
  missing_key arithmetic : SimulationError

abbrev pub Outcome : Type 0 → Type 0
Outcome = Result SimulationError

pub record ClosingMark : Type 0 where
  pub symbol : ℕ
  pub as_of : ℕ
  pub price : Decimal
  pub source : Text

pub record ArbitratedCycleProposal : Type 0 where
  pub candidate : BaselineCandidate
  pub arbitration : CandidateArbitration
  pub outcome : OutcomeLabel

pub record SimulationRequest : Type 0 where
  pub trade_date : ℕ
  pub account : AccountSnapshot
  pub costs : CostPolicy
  pub advance : Option AdvancePolicy
  pub risk : RiskLimits
  pub lot_size : ℕ
  pub closing_marks : List ClosingMark
  pub selection_evidence : List SelectionEvidence
  pub proposals : List ArbitratedCycleProposal

-- The digests of the records, which end in `hashlib`, and the date of an instant in the market's
-- time zone, which comes from the time zone database.
pub record Digests : Type 0 where
  pub candidate_digest : BaselineCandidate → ℕ
  pub arbitration_digest : CandidateArbitration → ℕ
  pub outcome_digest : OutcomeLabel → ℕ
  pub request_digest : SimulationRequest → ℕ
  pub market_date : ℕ → ℕ

pub data CycleStatus : Type 0 where
  closed rejected open_cycle : CycleStatus

-- The reasons of engine.py.
pub data CycleReason : Type 0 where
  symbol_busy entry_book_unavailable misaligned quantity_limit cycle_limit : CycleReason
  daily_loss_limit insufficient_settled_above_core order_notional_limit cash_limit : CycleReason
  exit_book_unavailable exit_settled_shortfall : CycleReason

-- The action is always BUY.
pub record CycleResult : Type 0 where
  pub cycle_id : ℕ
  pub outcome_sha256 : ℕ
  pub symbol : ℕ
  pub strategy : ℕ
  pub quantity : ℕ
  pub entry_at : ℕ
  pub horizon_at : ℕ
  pub status : CycleStatus
  pub reason : Option CycleReason
  pub entry_price : Option Decimal
  pub exit_price : Option Decimal
  pub gross_pnl_vnd : Option Decimal
  pub trading_cost_vnd : Option Decimal
  pub net_pnl_vnd : Option Decimal

-- `priority`
unfoldable pub priority : ArbitratedCycleProposal → Outcome ℕ
priority p = elim p.arbitration.priority [ none ↦ err missing_priority | some n ↦ ok n ]

abbrev as_candidate : Result ArbitrationError Unit → Outcome Unit
as_candidate (ok _) = ok tt
as_candidate (err _) = err proposal_candidate

abbrev pub mark_of : ℕ → List ClosingMark → Option ClosingMark
mark_of symbol marks = find (λ m. m.symbol == symbol) marks

-- The proposal's instants lie between the snapshot and its symbol's closing mark.
abbrev in_window : ℕ → Option ClosingMark → OutcomeLabel → Bool
in_window opened none o = false
in_window opened (some m) o =
    ltb opened o.decision_at && ltb o.entry_at m.as_of && leb o.horizon_at m.as_of

abbrev selected_between : Option SelectionEvidence → ℕ → ℕ → Bool
selected_between none from to = false
selected_between (some s) from to = leb from s.selected_at && ltb s.selected_at to

-- `advance is not None and advance.settlement_date <= trade_date`
abbrev settles_early : Option AdvancePolicy → ℕ → Bool
settles_early none date = false
settles_early (some a) date = leb a.settlement_date date

-- Pairs of numbers that repeat.
abbrev has_repeated_pair : List (ℕ × ℕ) → Bool
has_repeated_pair [] = false
has_repeated_pair (p ∷ ps) = any (λ q. q.0 == p.0 && q.1 == p.1) ps || has_repeated_pair ps

-- `set(xs) == set(ys)`
abbrev same_set : List ℕ → List ℕ → Bool
same_set xs ys = not (any (λ x. not (contains x ys)) xs || any (λ y. not (contains y xs)) ys)

abbrev pub priority_of : Option ℕ → ℕ
priority_of none = 0
priority_of (some n) = n

module _ (env : Digests) where
  -- `cycle_id`
  abbrev pub cycle_id : ArbitratedCycleProposal → ℕ
  cycle_id p = env.arbitration_digest p.arbitration

  -- `validate_lineage`
  unfoldable pub validate_lineage : ArbitratedCycleProposal → Outcome Unit
  validate_lineage p = do
    as_candidate (require_selected_candidate env.candidate_digest p.candidate p.arbitration)
    raise_if
        (p.outcome.feature_snapshot_sha256 != p.candidate.feature_snapshot_sha256
          || p.outcome.symbol != p.candidate.symbol
          || p.outcome.trade_date != p.candidate.trade_date
          || p.outcome.decision_at != p.candidate.decision_at
          || not p.outcome.is_buy
          || p.outcome.horizon_seconds != p.arbitration.horizon_seconds)
        proposal_lineage
    raise_if
        (not (is_empty p.outcome.reasons)
          && is_some p.outcome.entry_vwap
          && is_some p.outcome.horizon_vwap)
        priced_ineligible

  abbrev evidence_of : ArbitratedCycleProposal → List SelectionEvidence → Option SelectionEvidence
  evidence_of p evidence = find (λ s. s.arbitration_sha256 == cycle_id p) evidence

  -- `validate_request`, of a request whose proposals have a priority each.
  unfoldable pub validate_request : SimulationRequest → Outcome Unit
  validate_request r = do
    let symbols = symbols_of r.account.positions
    let marks = map (λ m. m.symbol) r.closing_marks
    let ids = map cycle_id r.proposals
    let evidence = map (λ s. s.arbitration_sha256) r.selection_evidence
    raise_if (ltb r.lot_size 1) request_fields
    raise_if (not (cost_contains r.costs r.trade_date)) cost_period
    raise_if (settles_early r.advance r.trade_date) settlement_order
    raise_if (env.market_date r.account.as_of != r.trade_date) account_date
    raise_if (unique_length marks != length marks || not (same_set marks symbols)) mark_symbols
    raise_if
        (any (λ m. env.market_date m.as_of != r.trade_date || leb m.as_of r.account.as_of)
          r.closing_marks)
        mark_times
    raise_if
        (unique_length ids != length ids
          || has_repeated_pair
              (map (λ p. (p.arbitration.symbol, p.arbitration.decision_at)) r.proposals))
        repeated_arbitration
    raise_if
        (has_repeated_pair
          (map (λ p. (p.outcome.entry_at, priority_of p.arbitration.priority)) r.proposals))
        repeated_priority
    raise_if (unique_length evidence != length evidence || not (same_set evidence ids))
        selection_cover
    raise_if
        (any
          (λ p. not (
            selected_between (evidence_of p r.selection_evidence) p.candidate.decision_at
              p.outcome.entry_at))
          r.proposals)
        selection_time
    raise_if
        (any
          (λ p.
            p.candidate.trade_date != r.trade_date
            || not (contains p.candidate.symbol symbols)
            || leb p.candidate.decision_at r.account.as_of
            || not
                (in_window r.account.as_of (mark_of p.candidate.symbol r.closing_marks) p.outcome))
          r.proposals)
        proposal_window

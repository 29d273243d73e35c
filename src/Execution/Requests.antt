-- ===== src/Execution/Requests.antt =====
-- What the paper planner reads and returns: the requests and the plan of execution/model.py, with the checks that pydantic runs when one is built.
use mini_lakehouse.Common.{
  ℕ, Bool, true, false, not, ◌&&◌, ◌||◌, Option, none, some, List, [], ◌∷◌, map, ltb, leb, ◌==◌,
  ◌!=◌, is_some, differ, any, is_empty, keep_if, last?, unique_length, length, Result, ok, err,
  ◌>>◌, raise_if,
}
use mini_lakehouse.Controls.{
  AccountSnapshot, CostPolicy, RiskLimits, SelectionEvidence, cost_contains, covers,
}
use mini_lakehouse.Candidate.{BaselineCandidate, name_id}
use mini_lakehouse.Arbitration.{
  ArbitrationPolicy, CandidateArbitration, ArbitrationError, require_selected_candidate,
}
use mini_lakehouse.Configuration.Policies.{
  PaperExecutionVersion, ContextVersion, PromotionGateVersion,
}
use mini_lakehouse.Promotion.{PromotionGateReport, PromotionTargetResult, is_pass}
use mini_lakehouse.Execution.Order.{
  Digest, Instant, Date, Outcome, PaperOrderIntent, PaperOrderState, is_entry, filled, OrderStatus,
  after, validate_intent, candidate_lineage, no_promotion, selection_timing, market_lineage,
  account_timing, cost_period, resource_account, plan_reasons, plan_status, exit_lineage,
}
use mini_lakehouse.Execution.Market.{PaperMarketSnapshot}
use mini_lakehouse.Execution.Resources.{PaperReservation, PaperResourceLedger, is_open}

-- `_EffectiveVersion.contains`
abbrev pub execution_contains : PaperExecutionVersion → Date → Bool
execution_contains p date = covers p.effective_from p.effective_to date

abbrev pub context_contains : ContextVersion → Date → Bool
context_contains p date = covers p.effective_from p.effective_to date

pub record PaperExecutionRequest : Type 0 where
  pub candidate : BaselineCandidate
  pub arbitration : CandidateArbitration
  pub promotion : PromotionGateReport
  pub selection : SelectionEvidence
  pub market : PaperMarketSnapshot
  pub account : AccountSnapshot
  pub costs : CostPolicy
  pub risk : RiskLimits
  pub resources : PaperResourceLedger

pub record PaperExitRequest : Type 0 where
  pub entry_intent : PaperOrderIntent
  pub entry_state : PaperOrderState
  pub market : PaperMarketSnapshot
  pub resources : PaperResourceLedger

-- `PaperBlockReason`
pub data PaperBlockReason : Type 0 where
  market_status_ineligible stale_quote insufficient_ask_quantity : PaperBlockReason
  insufficient_bid_quantity price_limit entry_not_terminal entry_unfilled : PaperBlockReason
  before_exit_horizon position_unavailable insufficient_settled_above_core : PaperBlockReason
  quantity_limit order_notional_limit cycle_limit daily_loss_limit cash_limit : PaperBlockReason

-- Reasons are compared by their place in the list of names.
abbrev reason_id : PaperBlockReason → ℕ
reason_id market_status_ineligible = 0
reason_id stale_quote = 1
reason_id insufficient_ask_quantity = 2
reason_id insufficient_bid_quantity = 3
reason_id price_limit = 4
reason_id entry_not_terminal = 5
reason_id entry_unfilled = 6
reason_id before_exit_horizon = 7
reason_id position_unavailable = 8
reason_id insufficient_settled_above_core = 9
reason_id quantity_limit = 10
reason_id order_notional_limit = 11
reason_id cycle_limit = 12
reason_id daily_loss_limit = 13
reason_id cash_limit = 14

pub record PaperOrderPlan : Type 0 where
  pub arbitration_sha256 : Digest
  -- The status: READY or BLOCKED.
  pub is_ready : Bool
  pub reasons : List PaperBlockReason
  pub intent : Option PaperOrderIntent

unfoldable pub validate_plan : PaperOrderPlan → Outcome Unit
validate_plan p = do
  raise_if (unique_length (map reason_id p.reasons) != length p.reasons) plan_reasons
  raise_if (differ p.is_ready (is_some p.intent && is_empty p.reasons)) plan_status

-- A record that is built is validated.
abbrev pub built_plan : PaperOrderPlan → Outcome PaperOrderPlan
built_plan p = validate_plan p >> ok p

abbrev pub built_intent : PaperOrderIntent → Outcome PaperOrderIntent
built_intent i = validate_intent i >> ok i

-- The digests of the records, which end in `hashlib`, and the date of an instant in the market's
-- time zone, which comes from the time zone database.
pub record Digests : Type 0 where
  pub candidate_digest : BaselineCandidate → Digest
  pub arbitration_digest : CandidateArbitration → Digest
  pub promotion_digest : PromotionGateReport → Digest
  pub market_digest : PaperMarketSnapshot → Digest
  pub account_digest : AccountSnapshot → Digest
  pub ledger_digest : PaperResourceLedger → Digest
  pub intent_digest : PaperOrderIntent → Digest
  pub request_digest : PaperExecutionRequest → Digest
  pub exit_request_digest : PaperExitRequest → Digest
  pub execution_digest : PaperExecutionVersion → Digest
  pub arbitration_policy_digest : ArbitrationPolicy → Digest
  pub gate_digest : PromotionGateVersion → Digest
  pub market_date : Instant → Date

abbrev as_lineage : Result ArbitrationError Unit → Outcome Unit
as_lineage (ok _) = ok tt
as_lineage (err _) = err candidate_lineage

abbrev passes_alone : List PromotionTargetResult → Bool
passes_alone [] = false
passes_alone (t ∷ []) = is_pass t.status
passes_alone (_ ∷ _) = false

-- `holdout_dates and holdout_dates[-1] < trade_date`
abbrev ends_earlier : Option Date → Date → Bool
ends_earlier none date = false
ends_earlier (some last) date = ltb last date

-- `status == "FILLED"`
abbrev is_filled : OrderStatus → Bool
is_filled (after filled) = true
is_filled _ = false

-- The targets of the report that the candidate stands for.
unfoldable pub promoted : PaperExecutionRequest → List PromotionTargetResult
promoted q =
    keep_if
      (λ t.
        name_id t.strategy == name_id q.candidate.strategy
        && t.symbol == q.candidate.symbol
        && t.horizon_seconds == q.arbitration.horizon_seconds)
      q.promotion.targets

module _ (env : Digests) where
  -- `PaperExecutionRequest.validate_request`
  unfoldable pub validate_request : PaperExecutionRequest → Outcome Unit
  validate_request q = do
    as_lineage (require_selected_candidate env.candidate_digest q.candidate q.arbitration)
    raise_if
        (not (is_pass q.promotion.status)
          || q.promotion.arbitration_version != q.arbitration.arbitration_version
          || q.promotion.arbitration_configuration_sha256
            != q.arbitration.arbitration_configuration_sha256
          || not (passes_alone (promoted q))
          || not (ends_earlier (last? q.promotion.holdout_dates) q.candidate.trade_date))
        no_promotion
    raise_if
        (q.selection.arbitration_sha256 != env.arbitration_digest q.arbitration
          || ltb q.selection.selected_at q.candidate.decision_at
          || ltb q.market.observed_at q.selection.selected_at)
        selection_timing
    raise_if
        (q.market.symbol != q.candidate.symbol
          || ltb q.market.observed_at q.candidate.decision_at
          || env.market_date q.market.observed_at != q.candidate.trade_date)
        market_lineage
    raise_if
        (ltb q.market.observed_at q.account.as_of
          || env.market_date q.account.as_of != q.candidate.trade_date)
        account_timing
    raise_if (not (cost_contains q.costs q.candidate.trade_date)) cost_period
    raise_if
        (q.resources.trade_date != q.candidate.trade_date
          || q.resources.account_snapshot_sha256 != env.account_digest q.account)
        resource_account

  -- An open reservation of the entry, of no more than what was filled.
  abbrev is_exitable : PaperExitRequest → PaperReservation → Bool
  is_exitable q r =
      r.entry_intent_sha256 == env.intent_digest q.entry_intent
      && is_open r.status
      && ltb 0 r.reserved_exit_quantity
      && leb r.reserved_exit_quantity q.entry_state.cumulative_filled_quantity

  -- `PaperExitRequest.validate_request`
  unfoldable pub validate_exit_request : PaperExitRequest → Outcome Unit
  validate_exit_request q =
      raise_if
        (not (is_entry q.entry_intent.leg)
          || q.entry_state.intent_sha256 != env.intent_digest q.entry_intent
          || q.market.symbol != q.entry_intent.symbol
          || env.market_date q.market.observed_at != q.entry_intent.trade_date
          || ltb q.entry_intent.quantity q.entry_state.cumulative_filled_quantity
          || (is_filled q.entry_state.status
              && q.entry_state.cumulative_filled_quantity != q.entry_intent.quantity)
          || not (any (is_exitable q) q.resources.reservations))
        exit_lineage

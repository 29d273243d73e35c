-- ===== src/Controls.antt =====
-- The controls that simulation and paper execution share: t0-trading/src/t0_trading/controls, with
-- the checks that pydantic runs when a record is built. Identifiers are numbers, since the code
-- only compares them; the patterns that they are written in are not modelled. Instants are
-- microseconds of UTC, and dates are numbers of days.
use mini_lakehouse.Common.{
  ℕ, ◌+◌, Bool, true, false, not, ◌&&◌, ◌||◌, Option, none, some, List, map, ltb, leb, length, Text,
  is_blank, is_some, differ, unique_length, ◌!=◌, Result, ◌>>◌, raise_if, is_empty,
}
use mini_lakehouse.Common.Decimal
use mini_lakehouse.Common.Decimal.{Decimal}

-- One constructor for each statement that raises.
pub data ControlError : Type 0 where
  cost_fields effective_order fee_pairing fee_blank public_without_plan sell_charges : ControlError
  advance_fields risk_fields position_fields core_above_settled : ControlError
  account_fields account_symbols : ControlError

-- `Field(ge=0, lt=10_000)`
abbrev is_bps : Decimal → Bool
is_bps a = not (Decimal.is_negative a) && Decimal.lt a (Decimal.whole 10000)

pub data Basis : Type 0 where
  user_supplied public_schedule_assumption : Basis

abbrev is_public : Basis → Bool
is_public user_supplied = false
is_public public_schedule_assumption = true

pub record CostPolicy : Type 0 where
  pub version : ℕ
  pub effective_from : ℕ
  pub effective_to : Option ℕ
  pub buy_fee_bps : Decimal
  pub sell_fee_bps : Decimal
  pub sell_tax_bps : Decimal
  pub extra_slippage_bps : Decimal
  pub basis : Basis
  pub account_plan : Option Text
  pub fee_source : Option Text
  pub fee_checked_at : Option ℕ

-- `limit is not None and limit < value`
abbrev pub ends_before : Option ℕ → ℕ → Bool
ends_before none value = false
ends_before (some limit) value = ltb limit value

-- `effective_from <= value and (effective_to is None or value <= effective_to)`
abbrev pub covers : ℕ → Option ℕ → ℕ → Bool
covers from to value = leb from value && not (ends_before to value)

-- `CostPolicy.contains`
unfoldable pub cost_contains : CostPolicy → ℕ → Bool
cost_contains c value = covers c.effective_from c.effective_to value

abbrev has_text : Option Text → Bool
has_text none = false
has_text (some t) = not (is_empty t)

abbrev is_blank_text : Option Text → Bool
is_blank_text none = false
is_blank_text (some t) = is_blank t

-- The bounds of the fields, then `validate_policy`.
unfoldable pub validate_policy : CostPolicy → Result ControlError Unit
validate_policy c = do
  raise_if
      (not (
        is_bps c.buy_fee_bps
        && is_bps c.sell_fee_bps
        && is_bps c.sell_tax_bps
        && is_bps c.extra_slippage_bps))
      cost_fields
  raise_if (ends_before c.effective_to c.effective_from) effective_order
  raise_if (differ (not (is_some c.fee_source)) (not (is_some c.fee_checked_at))) fee_pairing
  raise_if (is_blank_text c.fee_source) fee_blank
  raise_if (is_public c.basis && (not (has_text c.account_plan) || not (is_some c.fee_source)))
      public_without_plan
  raise_if (Decimal.le (Decimal.whole 10000) (Decimal.add c.sell_fee_bps c.sell_tax_bps))
      sell_charges

pub record AdvancePolicy : Type 0 where
  pub settlement_date : ℕ
  pub daily_interest_bps : Decimal
  pub source : Text

unfoldable pub validate_advance : AdvancePolicy → Result ControlError Unit
validate_advance a =
    raise_if (not (is_bps a.daily_interest_bps) || is_empty a.source) advance_fields

pub record SelectionEvidence : Type 0 where
  pub arbitration_sha256 : ℕ
  pub selected_at : ℕ
  pub source : Text
  pub source_sha256 : ℕ

pub record RiskLimits : Type 0 where
  pub max_cycle_quantity : ℕ
  pub max_order_notional_vnd : Decimal
  pub max_cycles_per_day : ℕ
  pub max_daily_loss_vnd : Decimal
  pub cash_reserve_vnd : Decimal

unfoldable pub validate_risk : RiskLimits → Result ControlError Unit
validate_risk r =
    raise_if
      (ltb r.max_cycle_quantity 1
        || not (Decimal.is_positive r.max_order_notional_vnd)
        || ltb r.max_cycles_per_day 1
        || not (Decimal.is_positive r.max_daily_loss_vnd)
        || Decimal.is_negative r.cash_reserve_vnd)
      risk_fields

pub record AccountPosition : Type 0 where
  pub symbol : ℕ
  pub settled_qty : ℕ
  pub t1_qty : ℕ
  pub t2_qty : ℕ
  pub core_min_qty : ℕ
  pub start_price : Decimal

-- The bounds of the fields, then `validate_core`.
unfoldable pub validate_core : AccountPosition → Result ControlError Unit
validate_core p = do
  raise_if (not (Decimal.is_positive p.start_price)) position_fields
  raise_if (ltb p.settled_qty p.core_min_qty) core_above_settled

abbrev pub total_qty : AccountPosition → ℕ
total_qty p = p.settled_qty + p.t1_qty + p.t2_qty

pub record AccountSnapshot : Type 0 where
  pub as_of : ℕ
  pub source : Text
  pub cash_vnd : Decimal
  pub positions : List AccountPosition

abbrev pub symbols_of : List AccountPosition → List ℕ
symbols_of ps = map (λ p. p.symbol) ps

-- The bounds of the fields, then `validate_positions`.
unfoldable pub validate_positions : AccountSnapshot → Result ControlError Unit
validate_positions a = do
  raise_if (is_empty a.source || Decimal.is_negative a.cash_vnd) account_fields
  raise_if (is_empty a.positions || unique_length (symbols_of a.positions) != length a.positions)
      account_symbols

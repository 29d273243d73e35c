-- ===== src/Outcomes.antt =====
-- The outcome labels of t0-trading/src/t0_trading/outcomes/model.py. Versions, digests, symbols,
-- sessions and reasons are numbers; that a symbol is in upper case is not modelled.
use mini_lakehouse.Common.{
  ℕ, ◌+◌, ◌*◌, Bool, true, false, not, ◌&&◌, ◌||◌, Option, none, some, List, ltb, leb, ◌!=◌,
  is_some, differ, is_empty, length, unique_length, Result, ok, err, ◌>>◌, raise_if,
}
use mini_lakehouse.Common.Decimal
use mini_lakehouse.Common.Decimal.{Decimal}
use mini_lakehouse.Numeric.{basis_points}

-- One constructor for each statement that raises.
pub data OutcomeError : Type 0 where
  label_fields label_order label_horizon quote_position price_lineage future_quote : OutcomeError
  return_pairing eligible_unpriced return_mismatch undefined_return repeated_reasons : OutcomeError

pub record OutcomeLabel : Type 0 where
  pub outcome_version : ℕ
  pub outcome_configuration_sha256 : ℕ
  pub feature_version : ℕ
  pub feature_configuration_sha256 : ℕ
  pub feature_snapshot_sha256 : ℕ
  pub stream_session_id : ℕ
  pub symbol : ℕ
  pub trade_date : ℕ
  pub decision_at : ℕ
  -- The action: BUY or SELL.
  pub is_buy : Bool
  pub horizon_seconds : ℕ
  pub order_quantity : ℕ
  pub entry_at : ℕ
  pub horizon_at : ℕ
  pub entry_quote_received_at : Option ℕ
  pub entry_receive_sequence : Option ℕ
  pub entry_vwap : Option Decimal
  pub horizon_quote_received_at : Option ℕ
  pub horizon_receive_sequence : Option ℕ
  pub horizon_vwap : Option Decimal
  pub gross_return_bps : Option Decimal
  pub reasons : List ℕ

abbrev is_price : Option Decimal → Bool
is_price none = true
is_price (some a) = Decimal.is_positive a

abbrev is_sequence : Option ℕ → Bool
is_sequence none = true
is_sequence (some n) = leb 1 n

abbrev is_later : Option ℕ → ℕ → Bool
is_later none t = false
is_later (some r) t = ltb t r

-- The body of the loop over the two quotes.
unfoldable pub check_quote : Option ℕ → Option ℕ → Option Decimal → ℕ → Result OutcomeError Unit
check_quote received sequence price at = do
  raise_if (differ (not (is_some received)) (not (is_some sequence))) quote_position
  raise_if (is_some price && not (is_some received)) price_lineage
  raise_if (is_later received at) future_quote

-- The movement in the direction of the action.
abbrev pub movement : Bool → Decimal → Decimal → Decimal
movement true entry horizon = Decimal.sub horizon entry
movement false entry horizon = Decimal.sub entry horizon

unfoldable pub check_return : OutcomeLabel → Result OutcomeError Unit
check_return o = elim o.entry_vwap [
  | none ↦ ok tt
  | some entry ↦ elim o.horizon_vwap [
    | none ↦ ok tt
    | some horizon ↦ elim (basis_points (movement o.is_buy entry horizon) entry) [
      | err _ ↦ err undefined_return
      | ok bps ↦ raise_if (not (Decimal.same o.gross_return_bps (some bps))) return_mismatch
    ]
  ]
]

abbrev prices_present : OutcomeLabel → Bool
prices_present o = is_some o.entry_vwap && is_some o.horizon_vwap

-- The bounds of the fields, then `validate_label`.
unfoldable pub validate_label : OutcomeLabel → Result OutcomeError Unit
validate_label o = do
  raise_if
      (ltb o.horizon_seconds 1
        || ltb o.order_quantity 1
        || not (is_sequence o.entry_receive_sequence)
        || not (is_sequence o.horizon_receive_sequence)
        || not (is_price o.entry_vwap)
        || not (is_price o.horizon_vwap))
      label_fields
  raise_if (not (leb o.decision_at o.entry_at && ltb o.entry_at o.horizon_at)) label_order
  raise_if (o.horizon_at != (o.decision_at + o.horizon_seconds * 1000000)) label_horizon
  check_quote o.entry_quote_received_at o.entry_receive_sequence o.entry_vwap o.entry_at
  check_quote o.horizon_quote_received_at o.horizon_receive_sequence o.horizon_vwap o.horizon_at
  raise_if (differ (prices_present o) (is_some o.gross_return_bps)) return_pairing
  raise_if (is_empty o.reasons && not (prices_present o)) eligible_unpriced
  check_return o
  raise_if (unique_length o.reasons != length o.reasons) repeated_reasons

-- ===== src/Execution/Resources.antt =====
-- The records of execution/model.py that hold paper resources, with the checks that pydantic runs
-- when one is built. A tuple is a list.
use mini_lakehouse.Common.{
  ℕ, Bool, true, false, not, ◌&&◌, ◌||◌, Option, List, map, ◌==◌, ◌!=◌, is_some, differ, any,
  contains, is_ordered_set, ok, ◌>>◌, raise_if,
}
use mini_lakehouse.Common.Decimal
use mini_lakehouse.Common.Decimal.{Decimal}
use mini_lakehouse.Execution.Order.{
  Digest, Symbol, Date, Outcome, positive_or_absent, reservation_fields, reservation_price_pairing,
  pending_entry, open_cycle, pending_exit, ledger_fields, ledger_positions, ledger_reservations,
  ledger_symbol_absent,
}

pub record PaperResourcePosition : Type 0 where
  pub symbol : Symbol
  pub available_exit_quantity : ℕ

-- `PaperReservationStatus`
pub data ReservationStatus : Type 0 where
  entry_pending opened exit_pending : ReservationStatus

abbrev pub is_entry_pending : ReservationStatus → Bool
is_entry_pending entry_pending = true
is_entry_pending _ = false

abbrev pub is_open : ReservationStatus → Bool
is_open opened = true
is_open _ = false

abbrev pub is_exit_pending : ReservationStatus → Bool
is_exit_pending exit_pending = true
is_exit_pending _ = false

pub record PaperReservation : Type 0 where
  pub entry_intent_sha256 : Digest
  pub exit_intent_sha256 : Option Digest
  pub symbol : Symbol
  pub status : ReservationStatus
  pub reserved_cash_vnd : Decimal
  pub reserved_exit_quantity : ℕ
  pub entry_filled_quantity : ℕ
  pub entry_average_fill_price : Option Decimal

-- The bounds of the fields, then `validate_reservation`.
unfoldable pub validate_reservation : PaperReservation → Outcome Unit
validate_reservation r = do
  raise_if
      (Decimal.is_negative r.reserved_cash_vnd
        || not (positive_or_absent r.entry_average_fill_price))
      reservation_fields
  raise_if (differ (r.entry_filled_quantity == 0) (not (is_some r.entry_average_fill_price)))
      reservation_price_pairing
  raise_if
      (is_entry_pending r.status
        && (is_some r.exit_intent_sha256
            || Decimal.le r.reserved_cash_vnd Decimal.zero_vnd
            || r.entry_filled_quantity != 0))
      pending_entry
  raise_if
      (is_open r.status
        && (is_some r.exit_intent_sha256
            || not (Decimal.eq r.reserved_cash_vnd Decimal.zero_vnd)
            || r.entry_filled_quantity == 0
            || r.reserved_exit_quantity != r.entry_filled_quantity))
      open_cycle
  raise_if
      (is_exit_pending r.status
        && (not (is_some r.exit_intent_sha256)
            || not (Decimal.eq r.reserved_cash_vnd Decimal.zero_vnd)
            || r.entry_filled_quantity == 0
            || r.reserved_exit_quantity != r.entry_filled_quantity))
      pending_exit

pub record PaperResourceLedger : Type 0 where
  pub trade_date : Date
  pub account_snapshot_sha256 : Digest
  pub revision : ℕ
  pub available_cash_vnd : Decimal
  pub positions : List PaperResourcePosition
  pub started_cycles : ℕ
  pub realized_net_pnl_vnd : Decimal
  pub reservations : List PaperReservation

abbrev pub symbols : List PaperResourcePosition → List Symbol
symbols ps = map (λ p. p.symbol) ps

abbrev pub entry_ids : List PaperReservation → List Digest
entry_ids rs = map (λ r. r.entry_intent_sha256) rs

-- The bounds of the fields, then `validate_ledger`.
unfoldable pub validate_ledger : PaperResourceLedger → Outcome Unit
validate_ledger l = do
  raise_if (Decimal.is_negative l.available_cash_vnd) ledger_fields
  raise_if (not (is_ordered_set (symbols l.positions))) ledger_positions
  raise_if (not (is_ordered_set (entry_ids l.reservations))) ledger_reservations
  raise_if (any (λ r. not (contains r.symbol (symbols l.positions))) l.reservations)
      ledger_symbol_absent

-- A record that is built is validated.
abbrev pub built_reservation : PaperReservation → Outcome PaperReservation
built_reservation r = validate_reservation r >> ok r

abbrev pub built_ledger : PaperResourceLedger → Outcome PaperResourceLedger
built_ledger l = validate_ledger l >> ok l

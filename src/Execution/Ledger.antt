-- ===== src/Execution/Ledger.antt =====
-- The transitions of execution/ledger.py. Each returns the next ledger or the error of the
-- statement that raised, the checks of each record that it builds included.
mod Parts
pub mod Inversion
pub mod Held
pub mod History
pub use Parts.{
  by_symbol, by_entry, other_than, basis, only, opened_of, replaced, differs_in_quantity,
  with_entry, after_entry, with_exit, after_exit,
}
unfoldable pub use Parts.{
  available_positions, moved, positions_after, with_fee, less_fee, spent_on, with_open, realized_on,
}
use mini_lakehouse.Common.{
  ℕ, ◌+◌, ◌-◌, Bool, true, false, not, ◌&&◌, ◌||◌, Option, none, some, List, [], ◌∷◌, ◌++◌, map,
  ltb, leb, ◌==◌, ◌!=◌, is_some, same_id, differ, any, contains, keep_if, length, is_ordered_set,
  Result, ok, err, ◌>>=◌, ◌>>◌, raise_if, if◌then◌else◌,
}
use mini_lakehouse.Common.Int.{ℤ, pos, sub_ℕ, pos_part, ltb_ℤ, ◌+ℤ◌}
use mini_lakehouse.Common.Sort.{sorted}
use mini_lakehouse.Common.Decimal
use mini_lakehouse.Common.Decimal.{Decimal}
use mini_lakehouse.Controls.{CostPolicy, cost_contains, AccountPosition, AccountSnapshot}
use mini_lakehouse.Execution.Order.{
  Digest, Symbol, Instant, Date, Outcome, PaperOrderIntent, PaperOrderState, is_entry,
  positive_or_absent, reservation_fields, reservation_price_pairing, pending_entry, open_cycle,
  pending_exit, ledger_fields, ledger_positions, ledger_reservations, ledger_symbol_absent,
  snapshot_date, inventory_exceeded, symbol_absent, entry_refused, entry_unmatched, cash_exceeded,
  exit_refused, exit_unmatched, exit_exceeded, exit_unpriced,
}
use mini_lakehouse.Execution.Reducer.{is_terminal, or_arithmetic}
use mini_lakehouse.Execution.Resources.{
  PaperResourcePosition, ReservationStatus, entry_pending, opened, exit_pending, is_entry_pending,
  is_open, is_exit_pending, PaperReservation, PaperResourceLedger, symbols, built_reservation,
  built_ledger,
}

-- The digests of the three records, which end in `hashlib`, and the date of an instant in the
-- market's time zone, which comes from the time zone database.
pub record Environment : Type 0 where
  pub intent_digest : PaperOrderIntent → Digest
  pub ledger_digest : PaperResourceLedger → Digest
  pub account_digest : AccountSnapshot → Digest
  pub market_date : Instant → Date

module _ (env : Environment) where
  open env use {intent_digest, ledger_digest, account_digest, market_date}

  unfoldable pub initialize_paper_ledger : AccountSnapshot → Date → Outcome PaperResourceLedger
  initialize_paper_ledger account trade_date = do
    raise_if (market_date account.as_of != trade_date) snapshot_date
    positions ← available_positions (sorted by_symbol account.positions)
    built_ledger (record {
      trade_date = trade_date;
      account_snapshot_sha256 = account_digest account;
      revision = 0;
      available_cash_vnd = account.cash_vnd;
      positions = positions;
      started_cycles = 0;
      realized_net_pnl_vnd = Decimal.zero_vnd;
      reservations = [];
    })

  -- The reservation of an entry that was just planned.
  abbrev pub pending_of : PaperOrderIntent → PaperReservation
  pending_of intent = record {
    entry_intent_sha256 = intent_digest intent;
    exit_intent_sha256 = none;
    symbol = intent.symbol;
    status = entry_pending;
    reserved_cash_vnd = intent.reserved_cash_vnd;
    reserved_exit_quantity = intent.reserved_exit_quantity;
    entry_filled_quantity = 0;
    entry_average_fill_price = none;
  }

  -- The test of `reserve_paper_entry`.
  abbrev pub refuses_entry : PaperResourceLedger → PaperOrderIntent → Bool
  refuses_entry ledger intent =
      not (is_entry intent.leg)
      || intent.trade_date != ledger.trade_date
      || intent.resource_ledger_sha256 != ledger_digest ledger
      || any (λ r. r.entry_intent_sha256 == intent_digest intent) ledger.reservations
      || Decimal.lt ledger.available_cash_vnd intent.reserved_cash_vnd

  unfoldable pub reserve_paper_entry :
      PaperResourceLedger → PaperOrderIntent → Outcome PaperResourceLedger
  reserve_paper_entry ledger intent = do
    raise_if (refuses_entry ledger intent) entry_refused
    pending ← built_reservation (pending_of intent)
    positions ← positions_after ledger intent.symbol (sub_ℕ 0 intent.reserved_exit_quantity)
    built_ledger (with_entry ledger intent.reserved_cash_vnd pending positions)

  abbrev pub awaits_entry : PaperOrderIntent → PaperReservation → Bool
  awaits_entry intent r = r.entry_intent_sha256 == intent_digest intent && is_entry_pending r.status

  -- The test of `settle_paper_entry`, with its `matches`.
  abbrev pub mismatches_entry :
      PaperOrderIntent → PaperOrderState → CostPolicy → List PaperReservation → Bool
  mismatches_entry intent state costs matches =
      not (is_entry intent.leg)
      || state.intent_sha256 != intent_digest intent
      || not (is_terminal state.status)
      || length matches != 1
      || not (cost_contains costs intent.trade_date)

  unfoldable pub settle_paper_entry :
      PaperResourceLedger
      → PaperOrderIntent
      → PaperOrderState
      → CostPolicy
      → Outcome PaperResourceLedger
  settle_paper_entry ledger intent state costs = do
    let matches = keep_if (awaits_entry intent) ledger.reservations
    raise_if (mismatches_entry intent state costs matches) entry_unmatched
    reservation ← only matches
    let filled = state.cumulative_filled_quantity
    spent ← spent_on state.average_fill_price filled costs
    raise_if (Decimal.lt reservation.reserved_cash_vnd spent) cash_exceeded
    remaining ←
        with_open (keep_if (other_than (intent_digest intent)) ledger.reservations)
          (intent_digest intent) intent.symbol filled state.average_fill_price
    positions ←
        positions_after ledger intent.symbol (sub_ℕ reservation.reserved_exit_quantity filled)
    built_ledger (after_entry ledger reservation.reserved_cash_vnd spent positions remaining)

  -- An open cycle of the intent's parent.
  abbrev pub awaits_exit : PaperOrderIntent → PaperReservation → Bool
  awaits_exit intent r =
      same_id (some r.entry_intent_sha256) intent.parent_intent_sha256 && is_open r.status

  abbrev pub exiting : PaperOrderIntent → PaperReservation → PaperReservation
  exiting intent selected = record selected {
    exit_intent_sha256 = some (intent_digest intent);
    status = exit_pending;
  }

  -- The test of `reserve_paper_exit`, with its `matches`.
  abbrev pub refuses_exit : PaperResourceLedger → PaperOrderIntent → List PaperReservation → Bool
  refuses_exit ledger intent matches =
      is_entry intent.leg
      || intent.resource_ledger_sha256 != ledger_digest ledger
      || length matches != 1
      || differs_in_quantity matches intent.quantity

  unfoldable pub reserve_paper_exit :
      PaperResourceLedger → PaperOrderIntent → Outcome PaperResourceLedger
  reserve_paper_exit ledger intent = do
    let matches = keep_if (awaits_exit intent) ledger.reservations
    raise_if (refuses_exit ledger intent matches) exit_refused
    selected ← only matches
    replacement ← built_reservation (exiting intent selected)
    built_ledger (with_exit ledger replacement)

  -- A cycle whose exit order is `intent`.
  abbrev pub awaits_sale : PaperOrderIntent → PaperReservation → Bool
  awaits_sale intent r =
      same_id r.exit_intent_sha256 (some (intent_digest intent)) && is_exit_pending r.status

  -- The test of `settle_paper_exit`, with its `matches`.
  abbrev pub mismatches_exit :
      PaperOrderIntent → PaperOrderState → CostPolicy → List PaperReservation → Bool
  mismatches_exit intent state costs matches =
      is_entry intent.leg
      || state.intent_sha256 != intent_digest intent
      || not (is_terminal state.status)
      || length matches != 1
      || not (cost_contains costs intent.trade_date)

  unfoldable pub settle_paper_exit :
      PaperResourceLedger
      → PaperOrderIntent
      → PaperOrderState
      → CostPolicy
      → Outcome PaperResourceLedger
  settle_paper_exit ledger intent state costs = do
    let matches = keep_if (awaits_sale intent) ledger.reservations
    raise_if (mismatches_exit intent state costs matches) exit_unmatched
    reservation ← only matches
    let sold = state.cumulative_filled_quantity
    raise_if (ltb reservation.reserved_exit_quantity sold) exit_exceeded
    realized ← realized_on state.average_fill_price reservation.entry_average_fill_price sold costs
    remaining ←
        with_open (keep_if (other_than reservation.entry_intent_sha256) ledger.reservations)
          reservation.entry_intent_sha256 reservation.symbol
          (reservation.reserved_exit_quantity - sold) reservation.entry_average_fill_price
    built_ledger (after_exit ledger realized remaining)

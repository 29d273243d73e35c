-- ===== src/Execution/Ledger/Parts.antt =====
-- The helpers of execution/ledger.py: what the four transitions build and compute.
use mini_lakehouse.Common.{
  ℕ, suc, zero, ◌+◌, ◌-◌, Bool, false, not, Option, none, some, List, [], ◌∷◌, ◌++◌, map, ltb, leb,
  ◌==◌, ◌!=◌, contains, ok, err, ◌>>=◌, ◌>>◌, raise_if, if◌then◌else◌,
}
use mini_lakehouse.Common.Int.{ℤ, pos, pos_part, ltb_ℤ, ◌+ℤ◌}
use mini_lakehouse.Common.Sort.{sorted}
use mini_lakehouse.Common.Decimal
use mini_lakehouse.Common.Decimal.{Decimal}
use mini_lakehouse.Controls.{CostPolicy, AccountPosition}
use mini_lakehouse.Execution.Order.{
  Digest, Symbol, Outcome, ledger_fields, inventory_exceeded, symbol_absent, entry_unmatched,
  exit_unpriced,
}
use mini_lakehouse.Execution.Reducer.{or_arithmetic}
use mini_lakehouse.Execution.Resources.{
  PaperResourcePosition, opened, PaperReservation, PaperResourceLedger, symbols, built_reservation,
}

-- `item.settled_qty - item.core_min_qty`, in a position whose field is `ge=0`.
abbrev available_of : AccountPosition → Outcome PaperResourcePosition
available_of p =
    raise_if (ltb p.settled_qty p.core_min_qty) ledger_fields
    >> ok (record { symbol = p.symbol; available_exit_quantity = p.settled_qty - p.core_min_qty })

unfoldable pub available_positions : List AccountPosition → Outcome (List PaperResourcePosition)
available_positions [] = ok []
available_positions (p ∷ ps) = do
  first ← available_of p
  rest ← available_positions ps
  ok (first ∷ rest)

-- `sorted(account.positions, key=lambda value: value.symbol)`
abbrev pub by_symbol : AccountPosition → AccountPosition → Bool
by_symbol a b = leb a.symbol b.symbol

-- The loop of `_positions`: the quantity of `symbol` changes by `delta`.
unfoldable pub moved :
    Symbol → ℤ → List PaperResourcePosition → Outcome (List PaperResourcePosition)
moved symbol delta [] = ok []
moved symbol delta (p ∷ ps) = do
  let quantity =
      if p.symbol == symbol
      then pos p.available_exit_quantity +ℤ delta
      else pos p.available_exit_quantity
  raise_if (ltb_ℤ quantity (pos 0)) inventory_exceeded
  rest ← moved symbol delta ps
  ok (record { symbol = p.symbol; available_exit_quantity = pos_part quantity } ∷ rest)

-- `_positions`
unfoldable pub positions_after :
    PaperResourceLedger → Symbol → ℤ → Outcome (List PaperResourcePosition)
positions_after l symbol delta = do
  values ← moved symbol delta l.positions
  raise_if (not (contains symbol (symbols l.positions))) symbol_absent
  ok values

-- `key=lambda item: item.entry_intent_sha256`
abbrev pub by_entry : PaperReservation → PaperReservation → Bool
by_entry a b = leb a.entry_intent_sha256 b.entry_intent_sha256

-- `item.entry_intent_sha256 != digest`
abbrev pub other_than : Digest → PaperReservation → Bool
other_than digest r = r.entry_intent_sha256 != digest

-- `1 + bps / _BPS` and `1 - bps / _BPS`
abbrev pub basis : Decimal → Outcome Decimal
basis bps = or_arithmetic (Decimal.div bps (Decimal.whole 10000))

unfoldable pub with_fee : Decimal → Outcome Decimal
with_fee bps = do ok (Decimal.add (Decimal.whole 1) (← basis bps))

unfoldable pub less_fee : Decimal → Outcome Decimal
less_fee bps = do ok (Decimal.sub (Decimal.whole 1) (← basis bps))

-- `matches[0]`, where the code has tested that there is one.
abbrev pub only : List PaperReservation → Outcome PaperReservation
only [] = err entry_unmatched
only (r ∷ _) = ok r

-- `Decimal(0) if average is None else average * filled * (1 + costs.buy_fee_bps / _BPS)`
unfoldable pub spent_on : Option Decimal → ℕ → CostPolicy → Outcome Decimal
spent_on none filled costs = ok Decimal.zero_vnd
spent_on (some average) filled costs = do
  rate ← with_fee costs.buy_fee_bps
  ok (Decimal.mul (Decimal.mul average (Decimal.whole filled)) rate)

-- What stays of an entry that bought `filled`.
abbrev pub opened_of : Digest → Symbol → ℕ → Option Decimal → PaperReservation
opened_of digest symbol filled average = record {
  entry_intent_sha256 = digest;
  exit_intent_sha256 = none;
  symbol = symbol;
  status = opened;
  reserved_cash_vnd = Decimal.zero_vnd;
  reserved_exit_quantity = filled;
  entry_filled_quantity = filled;
  entry_average_fill_price = average;
}

-- `remaining`, with the open reservation in its place if there is one.
unfoldable pub with_open :
    List PaperReservation → Digest → Symbol → ℕ → Option Decimal → Outcome (List PaperReservation)
with_open remaining digest symbol zero average = ok remaining
with_open remaining digest symbol (suc n) average = do
  open_one ← built_reservation (opened_of digest symbol (suc n) average)
  ok (sorted by_entry (remaining ++ open_one ∷ []))

-- `replacement if item.entry_intent_sha256 == selected.entry_intent_sha256 else item`
abbrev pub replaced : PaperReservation → PaperReservation → PaperReservation
replaced replacement r =
    if r.entry_intent_sha256 == replacement.entry_intent_sha256 then replacement else r

-- `matches[0].reserved_exit_quantity != intent.quantity`, tested only where there is one match.
abbrev pub differs_in_quantity : List PaperReservation → ℕ → Bool
differs_in_quantity [] q = false
differs_in_quantity (r ∷ _) q = r.reserved_exit_quantity != q

priced_gain : Option Decimal → Option Decimal → ℕ → CostPolicy → Outcome Decimal
priced_gain none entry_average sold costs = err exit_unpriced
priced_gain (some average) none sold costs = err exit_unpriced
priced_gain (some average) (some entry_average) sold costs = do
  buying ← with_fee costs.buy_fee_bps
  let entry_cost = Decimal.mul (Decimal.mul entry_average (Decimal.whole sold)) buying
  selling ← less_fee (Decimal.add costs.sell_fee_bps costs.sell_tax_bps)
  ok (Decimal.sub (Decimal.mul (Decimal.mul average (Decimal.whole sold)) selling) entry_cost)

-- `realized`, which stays 0 where nothing was sold.
unfoldable pub realized_on : Option Decimal → Option Decimal → ℕ → CostPolicy → Outcome Decimal
unfolding priced_gain
realized_on average entry_average zero costs = ok Decimal.zero_vnd
realized_on average entry_average (suc n) costs = priced_gain average entry_average (suc n) costs

-- `_next` as `reserve_paper_entry` calls it, and as the three other transitions do below.
abbrev pub with_entry :
    PaperResourceLedger
    → Decimal
    → PaperReservation
    → List PaperResourcePosition
    → PaperResourceLedger
with_entry ledger cash pending positions = record ledger {
  revision = ledger.revision + 1;
  available_cash_vnd = Decimal.sub ledger.available_cash_vnd cash;
  positions = positions;
  started_cycles = ledger.started_cycles + 1;
  reservations = sorted by_entry (ledger.reservations ++ pending ∷ []);
}

abbrev pub after_entry :
    PaperResourceLedger
    → Decimal
    → Decimal
    → List PaperResourcePosition
    → List PaperReservation
    → PaperResourceLedger
after_entry ledger cash spent positions remaining = record ledger {
  revision = ledger.revision + 1;
  available_cash_vnd = Decimal.sub (Decimal.add ledger.available_cash_vnd cash) spent;
  positions = positions;
  reservations = remaining;
}

abbrev pub with_exit : PaperResourceLedger → PaperReservation → PaperResourceLedger
with_exit ledger replacement = record ledger {
  revision = ledger.revision + 1;
  reservations = map (replaced replacement) ledger.reservations;
}

abbrev pub after_exit : PaperResourceLedger → Decimal → List PaperReservation → PaperResourceLedger
after_exit ledger realized remaining = record ledger {
  revision = ledger.revision + 1;
  realized_net_pnl_vnd = Decimal.add ledger.realized_net_pnl_vnd realized;
  reservations = remaining;
}

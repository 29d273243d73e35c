-- ===== src/Execution/Market.antt =====
-- `PaperMarketSnapshot` of execution/model.py, the quote that orders are planned and matched on.
use mini_lakehouse.Common.{ℕ, Bool, not, ◌&&◌, ◌||◌, ltb, ◌>>◌, raise_if, ◌*◌, ◌-◌}
use mini_lakehouse.Common.Decimal
use mini_lakehouse.Common.Decimal.{Decimal}
use mini_lakehouse.Execution.Order.{
  Digest, Symbol, Instant, Outcome, market_fields, market_time, market_band, ask_outside,
  bid_crossed, tick_misaligned,
}

pub record PaperMarketSnapshot : Type 0 where
  pub symbol : Symbol
  pub observed_at : Instant
  pub quote_received_at : Instant
  pub stream_session_id : ℕ
  pub receive_sequence : ℕ
  pub best_ask_price : Decimal
  pub best_ask_quantity : ℕ
  pub best_bid_price : Decimal
  pub best_bid_quantity : ℕ
  pub reference_price : Decimal
  pub ceiling_price : Decimal
  pub floor_price : Decimal
  pub tick_size : Decimal
  pub market_status : ℕ
  pub source_sha256 : Digest

-- `low <= value <= high`
abbrev pub within : Decimal → Decimal → Decimal → Bool
within low value high = Decimal.le low value && Decimal.le value high

-- The bounds of the fields, then `validate_market`.
unfoldable pub validate_market : PaperMarketSnapshot → Outcome Unit
validate_market m = do
  raise_if
      (ltb m.receive_sequence 1
        || ltb m.best_ask_quantity 1
        || ltb m.best_bid_quantity 1
        || not (Decimal.is_positive m.best_ask_price)
        || not (Decimal.is_positive m.best_bid_price)
        || not (Decimal.is_positive m.reference_price)
        || not (Decimal.is_positive m.ceiling_price)
        || not (Decimal.is_positive m.floor_price)
        || not (Decimal.is_positive m.tick_size))
      market_fields
  raise_if (ltb m.observed_at m.quote_received_at) market_time
  raise_if (not (within m.floor_price m.reference_price m.ceiling_price)) market_band
  raise_if (not (within m.floor_price m.best_ask_price m.ceiling_price)) ask_outside
  raise_if
      (not
        (Decimal.le m.floor_price m.best_bid_price && Decimal.lt m.best_bid_price m.best_ask_price))
      bid_crossed
  raise_if
      (Decimal.has_remainder m.best_ask_price m.tick_size
        || Decimal.has_remainder m.best_bid_price m.tick_size)
      tick_misaligned

-- `(observed_at - quote_received_at).total_seconds() > seconds`, for a quote that was received
-- no later than it was observed.
abbrev pub is_older_than : PaperMarketSnapshot → ℕ → Bool
is_older_than m seconds = ltb (seconds * 1000000) (m.observed_at - m.quote_received_at)

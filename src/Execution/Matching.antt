-- ===== src/Execution/Matching.antt =====
-- Top-of-book matching: execution/matching.py. The instants of the model are aware and in UTC, so
-- the test of `at.tzinfo` has no counterpart.
pub mod Quote
mod Tests
use mini_lakehouse.Common.{
  ℕ, zero, suc, ◌+◌, ◌-◌, ◌*◌, ◌/◌, min, Bool, true, false, not, ◌&&◌, ◌||◌, Option, none, some,
  List, [], ◌∷◌, ◌++◌, ltb, leb, ◌==◌, ◌!=◌, any, contains, last?, ok, err, ◌>>=◌, ◌>>◌, raise_if,
  if◌then◌else◌,
}
use mini_lakehouse.Common.Decimal
use mini_lakehouse.Common.Decimal.{Decimal}
use mini_lakehouse.Common.{Text}
use mini_lakehouse.Execution.Order.{
  Digest, Instant, Outcome, Hashing, Action, is_buy, EventType, accepted, partially_filled, filled,
  rejected, cancelled, expired, PaperOrderIntent, PaperFillEvidence, PaperOrderEvent,
  PaperOrderState, validate_event, validate_fill, is_created, policy_mismatch, time_rewound,
  not_accepted, budget_exceeded,
}
use mini_lakehouse.Execution.Reducer.{is_terminal, or_arithmetic, reduce_paper_order}
use mini_lakehouse.Execution.Market.{PaperMarketSnapshot, is_older_than}
use mini_lakehouse.Configuration.Policies.{PaperExecutionVersion, ContextVersion}

-- What the digest of a lifecycle event covers.
pub record Occurrence : Type 0 where
  pub intent : Digest
  pub previous : Option Digest
  pub event : EventType
  pub at : Instant
  pub reason : Option Text
  pub fill : Option PaperFillEvidence

-- The digests, which end in `hashlib`, the name that an adapter event takes from its digest, and
-- the two reasons.
pub record Adapter : Type 0 where
  pub hashing : Hashing
  pub occurrence_digest : Occurrence → Digest
  pub execution_digest : PaperExecutionVersion → Digest
  pub event_id : Digest → ℕ
  pub time_in_force : Text
  pub market_status_ineligible : Text

-- `average or Decimal(0)`
abbrev or_zero : Option Decimal → Decimal
or_zero none = Decimal.zero_vnd
or_zero (some a) = a

-- The average price after a fill.
unfoldable pub average_with :
    Option Decimal → ℕ → Option PaperFillEvidence → Outcome (Option Decimal)
average_with average so_far none = ok average
average_with average so_far (some f) = do
  a ← or_arithmetic (
      Decimal.div
        (Decimal.add (Decimal.mul (or_zero average) (Decimal.whole so_far))
          (Decimal.mul f.fill_price (Decimal.whole f.filled_quantity)))
        (Decimal.whole (so_far + f.filled_quantity)))
  ok (some a)

abbrev pub filled_with : ℕ → Option PaperFillEvidence → ℕ
filled_with so_far none = so_far
filled_with so_far (some f) = so_far + f.filled_quantity

abbrev pub built_event : PaperOrderEvent → Outcome PaperOrderEvent
built_event e = validate_event e >> ok e

abbrev pub built_fill : PaperFillEvidence → Outcome PaperFillEvidence
built_fill f = validate_fill f >> ok f

module _ (adapter : Adapter) (intent : PaperOrderIntent) (events : List PaperOrderEvent) where
  abbrev pub event_of :
      PaperOrderState
      → EventType
      → Instant
      → Option Text
      → Option PaperFillEvidence
      → Option Decimal
      → PaperOrderEvent
  event_of state type at reason fill average =
      let digest = adapter.hashing.intent_digest intent in
      let evidence = adapter.occurrence_digest (record {
        intent = digest;
        previous = state.last_event_sha256;
        event = type;
        at = at;
        reason = reason;
        fill = fill;
      }) in
      record {
        intent_sha256 = digest;
        sequence = state.event_count + 1;
        event_type = type;
        occurred_at = at;
        cumulative_filled_quantity = filled_with state.cumulative_filled_quantity fill;
        average_fill_price = average;
        reason = reason;
        adapter_event_id = adapter.event_id evidence;
        adapter_evidence_sha256 = evidence;
        fill_evidence = fill;
      }

  unfoldable pub lifecycle_event :
      EventType → Instant → Option Text → Option PaperFillEvidence → Outcome PaperOrderEvent
  lifecycle_event type at reason fill = do
    state ← reduce_paper_order adapter.hashing intent events
    average ← average_with state.average_fill_price state.cumulative_filled_quantity fill
    event ← built_event (event_of state type at reason fill average)
    after ← reduce_paper_order adapter.hashing intent (events ++ event ∷ [])
    ok event

-- `events and market.observed_at < events[-1].occurred_at`
abbrev is_before_last : Instant → Option PaperOrderEvent → Bool
is_before_last t none = false
is_before_last t (some e) = ltb t e.occurred_at

-- The evidence of one event stands on this quote.
abbrev pub is_fill_on : PaperMarketSnapshot → PaperOrderEvent → Bool
is_fill_on m e = elim e.fill_evidence [
  | none ↦ false
  | some f ↦ f.stream_session_id == m.stream_session_id && f.receive_sequence == m.receive_sequence
]

abbrev pub price_for : Action → PaperMarketSnapshot → Decimal
price_for a m = if is_buy a then m.best_ask_price else m.best_bid_price

abbrev pub displayed_for : Action → PaperMarketSnapshot → ℕ
displayed_for a m = if is_buy a then m.best_ask_quantity else m.best_bid_quantity

-- The price is worse than the limit.
abbrev pub misses_limit : PaperOrderIntent → Decimal → Bool
misses_limit i price =
    if is_buy i.action then Decimal.lt i.limit_price price else Decimal.lt price i.limit_price

-- `min(quantity - filled, available) // lot_size * lot_size`
abbrev pub lots : ℕ → ℕ → ℕ → ℕ
lots remaining available lot = min remaining available / lot * lot

-- The event that is returned, where one is built.
abbrev pub emitted : Outcome PaperOrderEvent → Outcome (Option PaperOrderEvent)
emitted m = m >>= λ e. ok (some e)

module _ (adapter : Adapter) (intent : PaperOrderIntent) (events : List PaperOrderEvent)
    (market : PaperMarketSnapshot) (policy : PaperExecutionVersion) where
  abbrev pub fill_of : ℕ → ℕ → PaperFillEvidence
  fill_of available quantity = record {
    symbol = intent.symbol;
    action = intent.action;
    observed_at = market.quote_received_at;
    stream_session_id = market.stream_session_id;
    receive_sequence = market.receive_sequence;
    filled_quantity = quantity;
    available_quantity = available;
    fill_price = price_for intent.action market;
    source_sha256 = market.source_sha256;
  }

  -- The last part of `match_quote`: a quote that reaches the limit.
  unfoldable pub fill_quote : PaperOrderState → ℕ → Outcome (Option PaperOrderEvent)
  fill_quote state available =
      let quantity =
        lots (intent.quantity - state.cumulative_filled_quantity) available policy.lot_size in
      if quantity == 0 || any (is_fill_on market) events
      then ok none
      else built_fill (fill_of available quantity) >>= λ fill. emitted (
          lifecycle_event adapter intent events
            (if quantity + state.cumulative_filled_quantity == intent.quantity
              then filled
              else partially_filled)
            market.observed_at none (some fill))

  -- The middle part: an open order and a quote in time.
  unfoldable pub trade_quote : PaperOrderState → ℕ → Outcome (Option PaperOrderEvent)
  trade_quote state available =
      if leb market.quote_received_at intent.created_at
        || is_older_than market policy.maximum_quote_age_seconds
      then ok none
      else raise_if (ltb (displayed_for intent.action market) available) budget_exceeded
        >> (if misses_limit intent (price_for intent.action market)
            then ok none
            else fill_quote state available)

  unfoldable pub open_quote :
      ContextVersion → PaperOrderState → ℕ → Outcome (Option PaperOrderEvent)
  open_quote context state available =
      if leb intent.expires_at market.observed_at
      then emitted (
          lifecycle_event adapter intent events expired market.observed_at
            (some adapter.time_in_force) none)
      else raise_if (is_created state.status) not_accepted
        >> (if not (contains market.market_status context.tradable_market_statuses)
            then emitted (
                lifecycle_event adapter intent events cancelled market.observed_at
                  (some adapter.market_status_ineligible) none)
            else trade_quote state available)

  -- `match_quote`; the budget is a number, so that it is not negative.
  unfoldable pub match_quote : ContextVersion → ℕ → Outcome (Option PaperOrderEvent)
  match_quote context available = reduce_paper_order adapter.hashing intent events >>= λ state.
      if is_terminal state.status
      then ok none
      else raise_if
          (intent.execution_configuration_sha256 != adapter.execution_digest policy
            || market.symbol != intent.symbol)
          policy_mismatch
        >> (raise_if
              (ltb market.observed_at intent.created_at
                || is_before_last market.observed_at (last? events))
              time_rewound
            >> open_quote context state available)

-- ===== src/Market/State.antt =====
-- The market state of t0-trading/src/t0_trading/market/state.py. Instants are microseconds of UTC and
-- aware. `decode_event` parses a provider's message with its SDK and is a parameter.
pub mod Symbol
pub mod Volume
pub mod Health
use mini_lakehouse.Common.{
  ℕ, ◌+◌, ◌*◌, Bool, true, false, not, ◌&&◌, ◌||◌, Option, none, some, List, [], ◌∷◌, ◌++◌, map,
  ltb, leb, ◌==◌, ◌!=◌, any, find, keep_if, contains, Result, err, ok, ◌>>=◌, ◌>>◌, raise_if,
  if◌then◌else◌,
}
use mini_lakehouse.Common.Sort.{sorted}
use mini_lakehouse.Configuration.{is_effective}
use mini_lakehouse.Configuration.Market.{TradingVersion, trading_effective}
use mini_lakehouse.Market.State.Symbol.{
  MarketEvent, QuoteSnapshot, Trade, trade, quote, auction, event_time_of, symbol_of, Bar, OpenBar,
  Issue, sequence_gap, sequence_regression, receipt_time_regression, is_transport, same_issue,
  SymbolState, new_symbol, StateError, uncovered_date, unknown_symbol, available_early, apply_event,
  close, bar_start,
}

pub record StreamEnvelope : Type 0 where
  pub stream_session_id : ℕ
  pub receive_sequence : ℕ
  -- The subscription context is `indices`.
  pub is_indices : Bool
  pub received_at : ℕ
  pub message_sha256 : ℕ

pub record MarketUpdate : Type 0 where
  pub event : Option MarketEvent
  pub finalized_bars : List Bar
  pub issues : List Issue

-- An entry of a dictionary.
pub record Slot (A : Type 0) : Type 0 where
  pub key : ℕ
  pub value : A

abbrev pub get : {A : Type 0} → ℕ → List (Slot A) → Option A
get k [] = none
get k (x ∷ xs) = if x.key == k then some x.value else get k xs

-- `d[k] = v`: in its place, or at the end.
abbrev pub put : {A : Type 0} → ℕ → A → List (Slot A) → List (Slot A)
put k v [] = record { key = k; value = v } ∷ []
put k v (x ∷ xs) =
    let later = x ∷ put k v xs in if x.key == k then record { key = k; value = v } ∷ xs else later

-- The attributes of `MarketState`; the set of integrity issues is the list of what was added.
pub record MarketState : Type 0 where
  pub symbols : List (Slot SymbolState)
  pub active_stream_session_id : Option ℕ
  pub last_sequence : List (Slot ℕ)
  pub last_received_at : List (Slot ℕ)
  pub noted : List Issue

abbrev sequence_issue : ℕ → Option ℕ → List Issue
sequence_issue n none = if n == 1 then [] else sequence_gap ∷ []
sequence_issue n (some last) =
    if leb n last then sequence_regression ∷ [] else if n == last + 1 then [] else sequence_gap ∷ []

abbrev precedes : ℕ → Option ℕ → Bool
precedes at none = false
precedes at (some last) = ltb at last

abbrev receipt_issue : ℕ → Option ℕ → List Issue
receipt_issue at last = if precedes at last then receipt_time_regression ∷ [] else []

abbrev has_issue : Issue → List Issue → Bool
has_issue i is = any (same_issue i) is

-- `_sequence_issues`: the state and the issues.
unfoldable pub sequence_issues : StreamEnvelope → MarketState → MarketState × List Issue
sequence_issues e s =
    let last_at = get e.stream_session_id s.last_received_at in
    let issues =
      sequence_issue e.receive_sequence (get e.stream_session_id s.last_sequence)
      ++ receipt_issue e.received_at last_at in
    let regressed = has_issue sequence_regression issues in
    (
      record s {
        last_sequence =
            if regressed
            then s.last_sequence
            else put e.stream_session_id e.receive_sequence s.last_sequence;
        last_received_at =
            if regressed || precedes e.received_at last_at
            then s.last_received_at
            else put e.stream_session_id e.received_at s.last_received_at;
        noted = s.noted ++ issues;
      },
      issues,
    )

-- `{symbol: _SymbolState() for symbol in configuration.market.symbols}`
abbrev fresh_symbols : TradingVersion → List (Slot SymbolState)
fresh_symbols c = map (λ s. record { key = s; value = new_symbol }) c.market.symbols

-- The test of a reconnect.
abbrev is_other_session : ℕ → Option ℕ → Bool
is_other_session id none = false
is_other_session id (some active) = id != active

abbrev connected : TradingVersion → StreamEnvelope → MarketState → MarketState
connected c e s = record s {
  symbols =
      if is_other_session e.stream_session_id s.active_stream_session_id
      then fresh_symbols c
      else s.symbols;
  active_stream_session_id = some e.stream_session_id;
}

abbrev ignored : MarketState → List Issue → MarketState × MarketUpdate
ignored s issues = (s, record { event = none; finalized_bars = []; issues = issues })

-- A bar's interval in microseconds.
abbrev pub interval_of : TradingVersion → ℕ
interval_of c = c.market.bar_interval_seconds * 1000000

abbrev quote_in : Option SymbolState → Result StateError (Option QuoteSnapshot)
quote_in none = err unknown_symbol
quote_in (some s) = ok s.latest_quote

unfoldable pub latest_quote : ℕ → MarketState → Result StateError (Option QuoteSnapshot)
latest_quote symbol s = quote_in (get symbol s.symbols)

module _ (c : TradingVersion) (local_date : ℕ → ℕ) where
  unfoldable pub new_market_state : MarketState
  new_market_state = record {
    symbols = fresh_symbols c;
    active_stream_session_id = none;
    last_sequence = [];
    last_received_at = [];
    noted = [];
  }

  -- The symbol's part of `apply`, and the update.
  abbrev apply_to :
      MarketState
      → List Issue
      → MarketEvent
      → Option SymbolState
      → Result StateError (MarketState × MarketUpdate)
  apply_to s issues event none = err unknown_symbol
  apply_to s issues event (some state) = do
    next ← apply_event (c.market.bar_interval_seconds) event state
    ok (
      record s {
        symbols = put (symbol_of event) next.state s.symbols;
        noted = s.noted ++ issues ++ next.found ++ next.hidden;
      },
      record {
        event = if any (λ i. not (is_transport i)) next.found then none else some event;
        finalized_bars = next.bars;
        issues = issues ++ next.found;
      },
    )

  abbrev apply_decoded :
      MarketState → List Issue → Option MarketEvent → Result StateError (MarketState × MarketUpdate)
  apply_decoded s issues none = ok (ignored s issues)
  apply_decoded s issues (some event) = do
    raise_if (not (is_effective trading_effective (local_date (event_time_of event)) c))
        uncovered_date
    apply_to s issues event (get (symbol_of event) s.symbols)

  abbrev apply_received :
      (StreamEnvelope → Result StateError (Option MarketEvent))
      → StreamEnvelope
      → MarketState × List Issue
      → Result StateError (MarketState × MarketUpdate)
  apply_received decode_event e now =
      if has_issue sequence_regression (now.1)
        || has_issue receipt_time_regression (now.1)
        || e.is_indices
      then ok (ignored (now.0) (now.1))
      else (decode_event e >>= apply_decoded (now.0) (now.1))

  unfoldable pub apply :
      (StreamEnvelope → Result StateError (Option MarketEvent))
      → StreamEnvelope
      → MarketState
      → Result StateError (MarketState × MarketUpdate)
  unfolding sequence_issues
  apply decode_event e s = apply_received decode_event e (sequence_issues e (connected c e s))

  abbrev bar_le : Bar → Bar → Bool
  bar_le a b = ltb a.end b.end || (a.end == b.end && leb a.symbol b.symbol)

  -- A symbol's state and the bar that `advance` closes.
  abbrev pub advance_closed :
      ℕ → ℕ → SymbolState → Option OpenBar → Result StateError (SymbolState × List Bar)
  advance_closed at available s none = ok (s, [])
  advance_closed at available s (some b) =
      let closed = close b available >>= λ bar. ok (record s { open_bar = none }, bar ∷ []) in
      if leb b.end at then closed else ok (s, [])

  abbrev pub closed_to : ℕ → SymbolState → SymbolState
  closed_to boundary s = record s {
    closed_through = elim s.closed_through [
      | none ↦ some boundary
      | some through ↦ if ltb through boundary then some boundary else some through
    ];
  }

  abbrev pub advance_all :
      ℕ → ℕ → List (Slot SymbolState) → Result StateError (List (Slot SymbolState) × List Bar)
  advance_all at available [] = ok ([], [])
  advance_all at available (x ∷ xs) = do
    one ← advance_closed at available x.value (x.value.open_bar)
    rest ← advance_all at available xs
    ok (
      record x { value = closed_to (bar_start at c.market.bar_interval_seconds) (one.0) } ∷ rest.0,
      one.1 ++ rest.1,
    )

  unfoldable pub advance : ℕ → ℕ → MarketState → Result StateError (MarketState × List Bar)
  advance at available s = do
    raise_if (ltb available at) available_early
    all ← advance_all at available s.symbols
    ok (record s { symbols = all.0 }, sorted bar_le (all.1))

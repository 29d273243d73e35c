-- ===== src/Market/State/Symbol.antt =====
-- Events, bars and one symbol's state of t0-trading/src/t0_trading/market/events.py and state.py.
use mini_lakehouse.Common.{
  ℕ, ◌+◌, ◌-◌, ◌*◌, ◌/◌, ◌%◌, Bool, true, false, Option, none, some, List, [], ◌∷◌, ltb, leb, ◌==◌,
  Result, err, ok, ◌>>=◌, if◌then◌else◌,
}
use mini_lakehouse.Common.Decimal
use mini_lakehouse.Common.Decimal.{Decimal}
use mini_lakehouse.Numeric.{price_quantum}

-- `AggressorSide`
pub data Side : Type 0 where
  buy sell : Side

pub record Trade : Type 0 where
  pub symbol : ℕ
  pub event_time : ℕ
  pub received_at : ℕ
  pub price : Decimal
  pub quantity : ℕ
  pub side : Option Side
  pub cumulative_volume : ℕ

pub record AuctionObservation : Type 0 where
  pub symbol : ℕ
  pub event_time : ℕ
  pub received_at : ℕ

-- The levels are not read by the state.
pub record QuoteSnapshot : Type 0 where
  pub symbol : ℕ
  pub event_time : ℕ
  pub received_at : ℕ
  pub is_complete : Bool

pub data MarketEvent : Type 0 where
  trade : Trade → MarketEvent
  auction : AuctionObservation → MarketEvent
  quote : QuoteSnapshot → MarketEvent

abbrev pub event_time_of : MarketEvent → ℕ
event_time_of (trade t) = t.event_time
event_time_of (auction a) = a.event_time
event_time_of (quote q) = q.event_time

abbrev pub symbol_of : MarketEvent → ℕ
symbol_of (trade t) = t.symbol
symbol_of (auction a) = a.symbol
symbol_of (quote q) = q.symbol

pub data StateError : Type 0 where
  undecodable uncovered_date unknown_symbol available_early required_late division : StateError

pub data Issue : Type 0 where
  sequence_gap sequence_regression receipt_time_regression : Issue
  trade_time_regression quote_time_regression late_trade : Issue
  trade_volume_duplicate trade_volume_gap trade_volume_regression : Issue

-- The place of an issue's name in the order of the names.
abbrev pub issue_id : Issue → ℕ
issue_id late_trade = 0
issue_id quote_time_regression = 1
issue_id receipt_time_regression = 2
issue_id sequence_gap = 3
issue_id sequence_regression = 4
issue_id trade_time_regression = 5
issue_id trade_volume_duplicate = 6
issue_id trade_volume_gap = 7
issue_id trade_volume_regression = 8

abbrev pub same_issue : Issue → Issue → Bool
same_issue a b = issue_id a == issue_id b

-- The issues that do not keep an event from being applied.
abbrev pub is_transport : Issue → Bool
is_transport sequence_gap = true
is_transport sequence_regression = true
is_transport receipt_time_regression = true
is_transport _ = false

pub record Bar : Type 0 where
  pub symbol : ℕ
  pub start : ℕ
  pub end : ℕ
  pub open_price : Decimal
  pub high_price : Decimal
  pub low_price : Decimal
  pub close_price : Decimal
  pub volume : ℕ
  pub value : Decimal
  pub trade_count : ℕ
  pub buy_volume : ℕ
  pub sell_volume : ℕ
  pub vwap : Decimal
  pub available_at : ℕ

pub record OpenBar : Type 0 where
  pub symbol : ℕ
  pub start : ℕ
  pub end : ℕ
  pub open_price : Decimal
  pub high_price : Decimal
  pub low_price : Decimal
  pub close_price : Decimal
  pub volume : ℕ
  pub value : Decimal
  pub trade_count : ℕ
  pub buy_volume : ℕ
  pub sell_volume : ℕ

-- `bar_start`, of an interval that is positive.
unfoldable pub bar_start : ℕ → ℕ → ℕ
bar_start value interval = let seconds = value / 1000000 in (seconds - seconds % interval) * 1000000

abbrev pub bought : Trade → ℕ
bought t = elim t.side [ none ↦ 0 | some s ↦ elim s [ buy ↦ t.quantity | sell ↦ 0 ] ]

abbrev pub sold : Trade → ℕ
sold t = elim t.side [ none ↦ 0 | some s ↦ elim s [ buy ↦ 0 | sell ↦ t.quantity ] ]

abbrev pub traded : Trade → Decimal
traded t = Decimal.mul t.price (Decimal.whole t.quantity)

-- `_OpenBar.from_trade`
abbrev pub from_trade : ℕ → Trade → OpenBar
from_trade interval t = record {
  symbol = t.symbol;
  start = bar_start t.event_time interval;
  end = bar_start t.event_time interval + interval * 1000000;
  open_price = t.price;
  high_price = t.price;
  low_price = t.price;
  close_price = t.price;
  volume = t.quantity;
  value = traded t;
  trade_count = 1;
  buy_volume = bought t;
  sell_volume = sold t;
}

-- `_OpenBar.add`
abbrev pub add : Trade → OpenBar → OpenBar
add t b = record b {
  high_price = if Decimal.lt b.high_price t.price then t.price else b.high_price;
  low_price = if Decimal.lt t.price b.low_price then t.price else b.low_price;
  close_price = t.price;
  volume = b.volume + t.quantity;
  value = Decimal.add b.value (traded t);
  trade_count = b.trade_count + 1;
  buy_volume = b.buy_volume + bought t;
  sell_volume = b.sell_volume + sold t;
}

abbrev pub priced : OpenBar → ℕ → Option Decimal → Result StateError Bar
priced b available none = err division
priced b available (some q) = ok (record {
  symbol = b.symbol;
  start = b.start;
  end = b.end;
  open_price = b.open_price;
  high_price = b.high_price;
  low_price = b.low_price;
  close_price = b.close_price;
  volume = b.volume;
  value = b.value;
  trade_count = b.trade_count;
  buy_volume = b.buy_volume;
  sell_volume = b.sell_volume;
  vwap = Decimal.quantize q price_quantum;
  available_at = available;
})

-- `_OpenBar.close`
abbrev pub close : OpenBar → ℕ → Result StateError Bar
close b available = priced b available (Decimal.div b.value (Decimal.whole b.volume))

-- `_SymbolState`
pub record SymbolState : Type 0 where
  pub latest_trade : Option Trade
  pub latest_quote : Option QuoteSnapshot
  pub last_trade_time : Option ℕ
  pub last_quote_time : Option ℕ
  pub cumulative_volume : Option ℕ
  pub open_bar : Option OpenBar
  pub closed_through : Option ℕ

abbrev pub new_symbol : SymbolState
new_symbol = record {
  latest_trade = none;
  latest_quote = none;
  last_trade_time = none;
  last_quote_time = none;
  cumulative_volume = none;
  open_bar = none;
  closed_through = none;
}

-- What an event does to its symbol: the next state, the bars, the issues of the update, and those
-- that are only added to the set.
pub record Applied : Type 0 where
  pub state : SymbolState
  pub bars : List Bar
  pub found : List Issue
  pub hidden : List Issue

abbrev pub is_before : ℕ → Option ℕ → Bool
is_before at none = false
is_before at (some last) = ltb at last

abbrev pub volume_issue : Trade → Option ℕ → List Issue
volume_issue t none = []
volume_issue t (some before) =
    if ltb t.cumulative_volume before
    then trade_volume_regression ∷ []
    else if t.cumulative_volume == before
    then trade_volume_duplicate ∷ []
    else if t.cumulative_volume == before + t.quantity
    then []
    else trade_volume_gap ∷ []

abbrev pub refused : SymbolState → List Issue → Applied
refused s issues = record { state = s; bars = []; found = issues; hidden = [] }

-- The state after a trade that is applied.
abbrev pub noted_trade : Trade → SymbolState → SymbolState
noted_trade t s = record s {
  latest_trade = some t;
  last_trade_time = some t.event_time;
  cumulative_volume = some t.cumulative_volume;
}

abbrev pub with_bar : Trade → OpenBar → SymbolState → Applied
with_bar t b s = record {
  state = noted_trade t (record s { open_bar = some b });
  bars = [];
  found = [];
  hidden = [];
}

-- `_apply_trade`, and what `apply` sets after it.
abbrev pub apply_trade : ℕ → Trade → SymbolState → Option OpenBar → Result StateError Applied
apply_trade interval t s none = ok (with_bar t (from_trade interval t) s)
apply_trade interval t s (some b) =
    let start = bar_start t.event_time interval in
    let finalized = close b t.received_at >>= λ bar. ok (record {
      state =
          noted_trade t
            (record s { open_bar = some (from_trade interval t); closed_through = some b.end });
      bars = bar ∷ [];
      found = [];
      hidden = [];
    }) in
    if start == b.start
    then ok (with_bar t (add t b) s)
    else if ltb start b.start
    then ok (record {
      state = noted_trade t s;
      bars = [];
      found = [];
      hidden = trade_time_regression ∷ [];
    })
    else finalized

-- `closed_through is not None and bar_end <= closed_through`
abbrev pub is_late : ℕ → Option ℕ → Bool
is_late end none = false
is_late end (some through) = leb end through

abbrev pub late_issues : List Issue → List Issue
late_issues [] = late_trade ∷ []
late_issues (i ∷ is) = i ∷ late_trade ∷ []

abbrev pub apply_volume : ℕ → Trade → SymbolState → List Issue → Result StateError Applied
apply_volume interval t s [] = apply_trade interval t s s.open_bar
apply_volume interval t s (i ∷ is) = ok (refused s (i ∷ is))

-- The part of `apply` that an event does to its symbol.
unfoldable pub apply_event : ℕ → MarketEvent → SymbolState → Result StateError Applied
apply_event interval (quote q) s = ok (
    if is_before q.event_time s.last_quote_time
    then refused s (quote_time_regression ∷ [])
    else refused (record s { latest_quote = some q; last_quote_time = some q.event_time }) [])
apply_event interval (auction a) s = ok (
    if is_before a.event_time s.last_trade_time
    then refused s (trade_time_regression ∷ [])
    else refused (record s { last_trade_time = some a.event_time }) [])
apply_event interval (trade t) s =
    let issues = volume_issue t s.cumulative_volume in
    if is_before t.event_time s.last_trade_time
    then ok (refused s (trade_time_regression ∷ []))
    else if is_late (bar_start t.event_time interval + interval * 1000000) s.closed_through
    then ok (refused s (late_issues issues))
    else apply_volume interval t s issues

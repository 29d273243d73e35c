-- ===== src/Market/Tests.antt =====
-- One instant of a trade date by t0-trading/src/t0_trading/market/session.py, and trades of one
-- symbol by state.py, with the theorems at them.
use mini_lakehouse.Common.{◌≡◌, ◌↔◌, refl, ok, true, false, some, [], ◌∷◌, arith, Result}
use mini_lakehouse.Common.Int.{pos, ◌+ℤ◌, ◌*ℤ◌}
use mini_lakehouse.Common.Decimal
use mini_lakehouse.Samples.{trading}
use mini_lakehouse.Configuration.Market.{SessionSchedule, validate_windows}
use mini_lakehouse.Market.Session.{Zone, session_at, continuous_am, closing_auction}
use mini_lakehouse.Market.Session.Windows.{IsIn, session_at_iff}
use mini_lakehouse.Market.State.Symbol.{
  MarketEvent, Trade, trade, buy, sell, Bar, SymbolState, new_symbol, sequence_gap, Applied,
  StateError, bar_start, from_trade, noted_trade, apply_event,
}
use mini_lakehouse.Market.State.Volume.{Sound}
use mini_lakehouse.Market.State.Volume.Trades.{Absorbed, apply_event-Absorbed}
use mini_lakehouse.Market.State.{
  MarketState, MarketUpdate, StreamEnvelope, get, new_market_state, sequence_issues, apply,
}
use mini_lakehouse.Market.State.Health.{MarketHealth, Ready, health, health-is_ready_iff}

abbrev schedule : SessionSchedule
schedule = trading.market.sessions

-- Days of 86,400 seconds, without an offset.
abbrev zone : Zone
zone = record { local_date = λ t. 5; local_time = λ t. t; instant = λ date time. time }

-- Ten o'clock.
morning : session_at zone 36000000000 5 schedule ≡ continuous_am
unfolding session_at
morning = refl

-- The last second of the closing auction.
last_second : session_at zone 53100999999 5 schedule ≡ closing_auction
unfolding session_at
last_second = refl

schedule_validated : validate_windows schedule ≡ ok tt
unfolding validate_windows
schedule_validated = refl

session_at_iff_example : (session_at zone 36000000000 5 schedule ≡ continuous_am) ↔ (
    (zone.local_date 36000000000 ≡ 5)
    × IsIn continuous_am (zone.local_time 36000000000) schedule.continuous_am)
session_at_iff_example =
    session_at_iff zone schedule 36000000000 5 continuous_am schedule.continuous_am
      schedule_validated refl

-- A trade in the first minute, and one in the second.
abbrev first_trade : Trade
first_trade = record {
  symbol = 7;
  event_time = 5000000;
  received_at = 5100000;
  price = Decimal.whole 20000;
  quantity = 100;
  side = some buy;
  cumulative_volume = 100;
}

abbrev second_trade : Trade
second_trade = record first_trade {
  event_time = 65000000;
  received_at = 65100000;
  price = Decimal.whole 20050;
  quantity = 50;
  side = some sell;
  cumulative_volume = 150;
}

abbrev after_first : SymbolState
after_first =
    noted_trade first_trade (record new_symbol { open_bar = some (from_trade 60 first_trade) })

after_first-Sound : Sound 60 after_first
unfolding bar_start
after_first-Sound = record { bar = (0, refl, refl, omega arith); closed = tt }

abbrev first_bar : Bar
first_bar = record {
  symbol = 7;
  start = 0;
  end = 60000000;
  open_price = Decimal.whole 20000;
  high_price = Decimal.whole 20000;
  low_price = Decimal.whole 20000;
  close_price = Decimal.whole 20000;
  volume = 100;
  value = Decimal.whole 2000000;
  trade_count = 1;
  buy_volume = 100;
  sell_volume = 0;
  vwap = record { coefficient = pos 2000000000000; scale = 8 };
  available_at = 65100000;
}

abbrev after_second : Applied
after_second = record {
  state = noted_trade second_trade (record after_first {
    open_bar = some (from_trade 60 second_trade);
    closed_through = some 60000000;
  });
  bars = first_bar ∷ [];
  found = [];
  hidden = [];
}

run : MarketEvent → Result StateError Applied
unfolding apply_event bar_start Decimal.mul Decimal.add Decimal.div Decimal.lt Decimal.quantize ◌+ℤ◌
    ◌*ℤ◌
run e = apply_event 60 e after_first

second_applied : run (trade second_trade) ≡ ok after_second
unfolding run
second_applied = refl

apply_event-Absorbed_example : Absorbed 60 after_first (trade second_trade) after_second
unfolding run
apply_event-Absorbed_example =
    apply_event-Absorbed 60 (omega arith) (trade second_trade) after_first after_second
      after_first-Sound second_applied

-- One session's state of the symbol after both trades and a quote.
abbrev market_state : MarketState
market_state = record {
  symbols =
      record {
        key = 7;
        value = record after_second.state {
          latest_quote = some (record {
            symbol = 7;
            event_time = 65000000;
            received_at = 65100000;
            is_complete = true;
          });
        };
      }
      ∷ [];
  active_stream_session_id = some 1;
  last_sequence = record { key = 1; value = 3 } ∷ [];
  last_received_at = record { key = 1; value = 65100000 } ∷ [];
  noted = [];
}

abbrev healthy : MarketHealth
healthy = record { symbol = 7; evaluated_at = 70000000; is_ready = true; reasons = [] }

health_found : health trading 7 70000000 (some 60000000) market_state ≡ ok healthy
unfolding health
health_found = refl

health-is_ready_iff_example :
    (state : SymbolState) × (get 7 market_state.symbols ≡ some state)
    × ((healthy.is_ready ≡ true) ↔ Ready trading 70000000 (some 60000000) market_state state)
health-is_ready_iff_example =
    health-is_ready_iff trading 7 70000000 (some 60000000) market_state healthy health_found

-- A first envelope that skips the start of its session.
abbrev envelope : StreamEnvelope
envelope = record {
  stream_session_id = 1;
  receive_sequence = 2;
  is_indices = false;
  received_at = 5100000;
  message_sha256 = 1;
}

run_apply : StreamEnvelope → Result StateError (MarketState × MarketUpdate)
unfolding run apply new_market_state sequence_issues
run_apply e =
    apply trading (λ t. 5) (λ x. ok (some (trade first_trade))) e
      (new_market_state trading (λ t. 5))

gap_noted :
    run_apply envelope
    ≡ ok (
      record {
        symbols =
            record { key = 7; value = after_first } ∷ record { key = 8; value = new_symbol } ∷ [];
        active_stream_session_id = some 1;
        last_sequence = record { key = 1; value = 2 } ∷ [];
        last_received_at = record { key = 1; value = 5100000 } ∷ [];
        noted = sequence_gap ∷ sequence_gap ∷ [];
      },
      record { event = some (trade first_trade); finalized_bars = []; issues = sequence_gap ∷ [] },
    )
unfolding run_apply
gap_noted = refl

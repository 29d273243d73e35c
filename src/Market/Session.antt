-- ===== src/Market/Session.antt =====
-- The sessions of t0-trading/src/t0_trading/market/session.py. Local dates and times come from the time
-- zone database and are parameters; instants are aware, so `_aware` has no counterpart.
pub mod Windows
use mini_lakehouse.Common.{
  ℕ, ◌/◌, ◌*◌, Bool, true, false, not, ◌&&◌, Option, none, some, ltb, leb, ◌==◌, ◌!=◌, Result, err,
  ok, ◌>>◌, raise_if, if◌then◌else◌,
}
use mini_lakehouse.Configuration.Market.{Time, SessionSchedule}

pub data MarketSession : Type 0 where
  pre_open opening_auction continuous_am lunch_break continuous_pm closing_auction shut :
      MarketSession

-- `TRADE_SESSIONS`
abbrev pub is_trade_session : MarketSession → Bool
is_trade_session pre_open = false
is_trade_session lunch_break = false
is_trade_session shut = false
is_trade_session _ = true

pub data SessionError : Type 0 where
  connection_order no_window : SessionError

-- A time zone: the date and the time of the day (in microseconds) of an instant there, and the
-- instant of a date and a time.
pub record Zone : Type 0 where
  pub local_date : ℕ → ℕ
  pub local_time : ℕ → ℕ
  pub instant : ℕ → ℕ → ℕ

-- The dictionary `windows` of `session_window`.
abbrev pub window_of : SessionSchedule → MarketSession → Option (Time × Time)
window_of s opening_auction = some s.opening_auction
window_of s continuous_am = some s.continuous_am
window_of s continuous_pm = some s.continuous_pm
window_of s closing_auction = some s.closing_auction
window_of s _ = none

-- The local time of the trade date.
abbrev pub session_of : ℕ → SessionSchedule → MarketSession
session_of value s =
    if ltb value s.opening_auction.0.micros
    then pre_open
    else if ltb value s.opening_auction.1.micros
    then opening_auction
    else if ltb value s.continuous_am.1.micros
    then continuous_am
    else if ltb value s.continuous_pm.0.micros
    then lunch_break
    else if ltb value s.continuous_pm.1.micros
    then continuous_pm
    else if leb (value / 1000000 * 1000000) s.closing_auction.1.micros
    then closing_auction
    else shut

module _ (zone : Zone) where
  open zone use {local_date, local_time, instant}

  unfoldable pub trading_window : ℕ → SessionSchedule → ℕ × ℕ
  trading_window date s =
      (instant date s.opening_auction.0.micros, instant date s.closing_auction.1.micros)

  unfoldable pub covers_trading_window : ℕ → ℕ → ℕ → SessionSchedule → Result SessionError Bool
  unfolding trading_window
  covers_trading_window connected disconnected date s =
      let (opens, closes) = trading_window date s in
      raise_if (ltb disconnected connected) connection_order
      >> ok (leb connected opens && leb closes disconnected)

  abbrev instants_of : ℕ → Option (Time × Time) → Result SessionError (ℕ × ℕ)
  instants_of date none = err no_window
  instants_of date (some w) = ok (instant date w.0.micros, instant date w.1.micros)

  unfoldable pub session_window : ℕ → MarketSession → SessionSchedule → Result SessionError (ℕ × ℕ)
  session_window date session s = instants_of date (window_of s session)

  unfoldable pub session_at : ℕ → ℕ → SessionSchedule → MarketSession
  session_at timestamp date s =
      if local_date timestamp != date then shut else session_of (local_time timestamp) s

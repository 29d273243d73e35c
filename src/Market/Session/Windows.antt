-- ===== src/Market/Session/Windows.antt =====
-- `session_at` of t0-trading/src/t0_trading/market/session.py against the windows of the schedule.
use mini_lakehouse.Common.{
  ℕ, ◌/◌, ◌*◌, ◌≤◌, ◌<◌, ◌≡◌, ◌↔◌, inl, inr, some, ◌!=◌, arith, some_injective, Bool-cases,
  or_false, raise_if-eq-ok, >>-eq-ok, ok, leb→gt, !=→eq,
}
use mini_lakehouse.Configuration.Market.{Time, SessionSchedule, validate_windows, starts_late}
use mini_lakehouse.Market.Session.{
  MarketSession, pre_open, lunch_break, opening_auction, continuous_am, continuous_pm,
  closing_auction, shut, Zone, window_of, session_of, session_at,
}

-- The order of the boundaries of a valid schedule.
record Ordered (s : SessionSchedule) : Type 0 where
  opening : s.opening_auction.0.micros < s.opening_auction.1.micros
  morning_start : s.opening_auction.1.micros ≡ s.continuous_am.0.micros
  morning : s.continuous_am.0.micros < s.continuous_am.1.micros
  lunch : s.continuous_am.1.micros < s.continuous_pm.0.micros
  afternoon : s.continuous_pm.0.micros < s.continuous_pm.1.micros
  closing_start : s.continuous_pm.1.micros ≡ s.closing_auction.0.micros
  closing : s.closing_auction.0.micros < s.closing_auction.1.micros

validate_windows-Ordered : (s : SessionSchedule) → validate_windows s ≡ ok tt → Ordered s
unfolding validate_windows
validate_windows-Ordered s h =
    let (_, h1) = >>-eq-ok _ _ h in
    let (lasting, h2) = >>-eq-ok _ _ h1 in
    let positive = raise_if-eq-ok _ _ lasting in
    let ordered = raise_if-eq-ok _ _ h2 in
    let (o, p1) = or_false (starts_late s.opening_auction) _ positive in
    let (m, p2) = or_false (starts_late s.continuous_am) _ p1 in
    let (a, p3) = or_false (starts_late s.continuous_pm) _ p2 in
    let (c, _) = or_false (starts_late s.closing_auction) _ p3 in
    let (q1, q) = or_false _ (s.continuous_pm.1.micros != s.closing_auction.0.micros) ordered in
    let (ms, l) = or_false (s.opening_auction.1.micros != s.continuous_am.0.micros) _ q1 in
    record {
      opening = leb→gt _ _ o;
      morning_start = !=→eq _ _ ms;
      morning = leb→gt _ _ m;
      lunch = leb→gt _ _ l;
      afternoon = leb→gt _ _ a;
      closing_start = !=→eq _ _ q;
      closing = leb→gt _ _ c;
    }

-- Within a window: its end is outside, but for the closing auction, whose last second is inside.
abbrev pub IsIn : MarketSession → ℕ → Time × Time → Type 0
IsIn closing_auction value w = (w.0.micros ≤ value) × (value / 1000000 * 1000000 ≤ w.1.micros)
IsIn _ value w = (w.0.micros ≤ value) × (value < w.1.micros)

module _ (s : SessionSchedule) (o : Ordered s) (value : ℕ) where
  open o use {opening, morning_start, morning, lunch, afternoon, closing_start, closing}

  opening_iff :
      (session_of value s ≡ opening_auction) ↔ IsIn opening_auction value s.opening_auction
  opening_iff =
      (λ h. (ground arith, ground arith), λ h. let low = h.0 in let high = h.1 in ground arith)

  morning_iff : (session_of value s ≡ continuous_am) ↔ IsIn continuous_am value s.continuous_am
  morning_iff =
      (λ h. (ground arith, ground arith), λ h. let low = h.0 in let high = h.1 in ground arith)

  afternoon_iff : (session_of value s ≡ continuous_pm) ↔ IsIn continuous_pm value s.continuous_pm
  afternoon_iff =
      (λ h. (ground arith, ground arith), λ h. let low = h.0 in let high = h.1 in ground arith)

  closing_iff :
      (session_of value s ≡ closing_auction) ↔ IsIn closing_auction value s.closing_auction
  closing_iff =
      (λ h. (ground arith, ground arith), λ h. let low = h.0 in let high = h.1 in ground arith)

  session_of_iff :
      (session : MarketSession) (w : Time × Time)
      → window_of s session ≡ some w
      → (session_of value s ≡ session) ↔ IsIn session value w
  session_of_iff pre_open w h = cc
  session_of_iff opening_auction w h = rw (← some_injective h) opening_iff
  session_of_iff continuous_am w h = rw (← some_injective h) morning_iff
  session_of_iff lunch_break w h = cc
  session_of_iff continuous_pm w h = rw (← some_injective h) afternoon_iff
  session_of_iff closing_auction w h = rw (← some_injective h) closing_iff
  session_of_iff shut w h = cc

shut_elsewhere :
    (s : SessionSchedule) (session : MarketSession) (w : Time × Time)
    → window_of s session ≡ some w
    → shut ≡ session
    → ⊥
shut_elsewhere s session w h same = cc

-- By a valid schedule, `session_at` puts an instant into a session that has a window exactly when
-- its local date is the trade date and its local time lies in that window, from the start to
-- before the end, for the closing auction to the end's last second.
pub session_at_iff :
    (zone : Zone) (s : SessionSchedule) (timestamp date : ℕ) (session : MarketSession)
    (w : Time × Time)
    → validate_windows s ≡ ok tt
    → window_of s session ≡ some w
    → (session_at zone timestamp date s ≡ session)
      ↔ ((zone.local_date timestamp ≡ date) × IsIn session (zone.local_time timestamp) w)
unfolding session_at
session_at_iff zone s timestamp date session w valid found =
    let inside =
      session_of_iff s (validate_windows-Ordered s valid) (zone.local_time timestamp) session w
        found in
    elim (Bool-cases (zone.local_date timestamp != date)) [
      | inl elsewhere ↦ rw elsewhere (
          (
            λ h. absurd (shut_elsewhere s session w found h),
            λ h. let same = h.0 in absurd (ground arith),
          ))
      | inr here ↦ rw here ((λ h. (!=→eq _ _ here, inside.0 h), λ h. inside.1 (h.1)))
    ]

-- ===== src/Market/State/Volume.antt =====
-- The bars of one symbol in t0-trading/src/t0_trading/market/state.py: where they lie, and the volume
-- that they hold.
pub mod Trades
use native.Mathlib.Nat.{
  div-add-mod', le-div_iff_mul-le, div-mul-le_self, mul-le-mul_right, mul_assoc,
  lt_of_mul-lt-mul_right, suc-mul,
}
use mini_lakehouse.Common.{
  ℕ, zero, suc, ◌+◌, ◌-◌, ◌*◌, ◌/◌, ◌%◌, ◌≤◌, ◌<◌, ◌≡◌, refl, sym, ap, subst, ◌∙◌, Option, none,
  some, List, arith,
}
use mini_lakehouse.Market.State.Symbol.{OpenBar, SymbolState, bar_start}

-- The number of the interval that holds an instant.
abbrev pub slot : ℕ → ℕ → ℕ
slot interval at = at / 1000000 / interval

-- An interval in microseconds.
abbrev pub width : ℕ → ℕ
width interval = interval * 1000000

pub bar_start-eq : (at interval : ℕ) → bar_start at interval ≡ slot interval at * width interval
unfolding bar_start
bar_start-eq at interval =
    let seconds = at / 1000000 in
    let rest = div-add-mod' seconds interval in
    let whole : seconds - seconds % interval ≡ seconds / interval * interval = omega arith in
    rw whole (mul_assoc (seconds / interval) interval 1000000)

div_mono : (k a b : ℕ) → 0 < k → a ≤ b → a / k ≤ b / k
div_mono k a b pos less =
    let below = div-mul-le_self a k in (le-div_iff_mul-le {x = a / k} {y = b} pos).1 (omega arith)

pub slot_mono : (interval a b : ℕ) → 0 < interval → a ≤ b → slot interval a ≤ slot interval b
slot_mono interval a b pos less =
    div_mono interval (a / 1000000) (b / 1000000) pos (div_mono 1000000 a b (omega arith) less)

-- The open bar lies in one interval, which is not after the last trade's.
abbrev pub BarLies : ℕ → Option ℕ → Option OpenBar → Type 0
BarLies interval last none = Unit
BarLies interval none (some b) = ⊥
BarLies interval (some at) (some b) =
    (n : ℕ) × (b.start ≡ n * width interval)
    × (b.end ≡ n * width interval + width interval)
    × (n ≤ slot interval at)

-- What is closed ends with an interval, and before the open bar.
abbrev pub ClosedBefore : ℕ → Option OpenBar → Option ℕ → Type 0
ClosedBefore interval bar none = Unit
ClosedBefore interval none (some through) = (j : ℕ) × (through ≡ j * width interval)
ClosedBefore interval (some b) (some through) =
    (j : ℕ) × (through ≡ j * width interval) × (through ≤ b.start)

pub record Sound (interval : ℕ) (s : SymbolState) : Type 0 where
  pub bar : BarLies interval s.last_trade_time s.open_bar
  pub closed : ClosedBefore interval s.open_bar s.closed_through

-- An interval that ends after another has ended starts no earlier than that end.
pub starts_after : (w j n : ℕ) → 0 < w → j * w < n * w + w → j * w ≤ n * w
starts_after w j n pos less =
    let lower : j < suc n =
      lt_of_mul-lt-mul_right w {m = j} {n = suc n} (omega (arith, suc-mul n w)) in
    mul-le-mul_right w (omega arith)

-- ===== src/Market/State/Volume/Trades.antt =====
-- What `apply` does to the bars of its event's symbol in t0-trading/src/t0_trading/market/state.py.
use native.Mathlib.Nat.{le_trans, mul-le-mul_right, suc-mul}
use mini_lakehouse.Common.{
  ℕ, ◌+◌, ◌*◌, ◌≤◌, ◌<◌, ◌≡◌, refl, sym, ap, subst, ◌∙◌, inl, inr, true, false, Option, none, some,
  List, [], ◌∷◌, arith, ltb, leb, ◌==◌, All, sum_of, Bool-cases, ok, >>=-eq-ok, ok_injective,
  ltb→lt, ltb→ge, leb→gt, ==→ne,
}
use mini_lakehouse.Common.Decimal.{Decimal}
use mini_lakehouse.Market.State.Symbol.{
  MarketEvent, Trade, trade, auction, quote, Bar, OpenBar, SymbolState, Applied, Issue, bar_start,
  from_trade, add, close, priced, is_before, is_late, late_issues, refused, apply_trade,
  apply_volume, apply_event,
}
use mini_lakehouse.Market.State.Volume.{
  slot, width, bar_start-eq, slot_mono, BarLies, ClosedBefore, Sound, starts_after,
}

abbrev pub volume_in : Option OpenBar → ℕ
volume_in none = 0
volume_in (some b) = b.volume

-- The shares of an event that is applied without an issue.
abbrev pub applied_shares : MarketEvent → List Issue → ℕ
applied_shares (trade t) [] = t.quantity
applied_shares (trade t) (i ∷ is) = 0
applied_shares (auction a) is = 0
applied_shares (quote q) is = 0

abbrev pub IsAfter : Option ℕ → ℕ → Type 0
IsAfter none start = Unit
IsAfter (some through) start = through ≤ start

-- A bar of one interval, after what was closed before, up to whose end all is closed now.
abbrev pub Finalized : ℕ → Option ℕ → Option ℕ → Bar → Type 0
Finalized interval before now b =
    IsAfter before b.start × (b.start + width interval ≡ b.end) × (now ≡ some b.end)

-- What holds of a symbol that an event was applied to.
pub record Absorbed (interval : ℕ) (s : SymbolState) (e : MarketEvent) (a : Applied) : Type 0 where
  pub conserved :
      sum_of (λ b. b.volume) a.bars + volume_in a.state.open_bar
      ≡ volume_in s.open_bar + applied_shares e a.found
  pub nothing_hidden : a.hidden ≡ []
  pub finalized : All (Finalized interval s.closed_through a.state.closed_through) a.bars
  pub sound : Sound interval a.state

priced-eq-ok :
    (b : OpenBar) (available : ℕ) (q : Option Decimal) (bar : Bar)
    → priced b available q ≡ ok bar
    → (bar.start ≡ b.start) × (bar.end ≡ b.end) × (bar.volume ≡ b.volume)
priced-eq-ok b available none bar h = cc
priced-eq-ok b available (some q) bar h =
    let same = sym (ok_injective h) in
    (ap (λ x. x.start) same, ap (λ x. x.end) same, ap (λ x. x.volume) same)

module _ (interval : ℕ) (positive : 0 < interval) where
  start_after :
      (t : Trade) (through j : ℕ)
      → leb (bar_start t.event_time interval + width interval) through ≡ false
      → through ≡ j * width interval
      → through ≤ bar_start t.event_time interval
  start_after t through j h same =
      let less = leb→gt _ through h in
      let n = slot interval t.event_time in
      let start = bar_start-eq t.event_time interval in
      rw (same, start) (starts_after (width interval) j n (omega arith) (omega arith))

  -- A new bar stands after what was closed, if its trade is not late.
  new-ClosedBefore :
      (t : Trade) (bar : Option OpenBar) (closed : Option ℕ)
      → is_late (bar_start t.event_time interval + width interval) closed ≡ false
      → ClosedBefore interval bar closed
      → ClosedBefore interval (some (from_trade interval t)) closed
  new-ClosedBefore t bar none h k = tt
  new-ClosedBefore t none (some through) h (j, same) = (j, same, start_after t through j h same)
  new-ClosedBefore t (some b) (some through) h (j, same, _) =
      (j, same, start_after t through j h same)

  new-BarLies : (t : Trade) → BarLies interval (some t.event_time) (some (from_trade interval t))
  new-BarLies t = (
    slot interval t.event_time,
    bar_start-eq t.event_time interval,
    ap (λ x. x + width interval) (bar_start-eq t.event_time interval),
    omega arith,
  )

  -- The same bar with one more trade, which is not before the last one.
  longer-BarLies :
      (t : Trade) (b : OpenBar) (last : Option ℕ)
      → is_before t.event_time last ≡ false
      → BarLies interval last (some b)
      → BarLies interval (some t.event_time) (some (add t b))
  longer-BarLies t b none h k = elim k [ ]
  longer-BarLies t b (some at) h (n, starts, ends, before) =
      let later = slot_mono interval at t.event_time positive (ltb→ge _ _ h) in
      (n, starts, ends, omega arith)

  same-ClosedBefore :
      (t : Trade) (b : OpenBar) (closed : Option ℕ)
      → ClosedBefore interval (some b) closed
      → ClosedBefore interval (some (add t b)) closed
  same-ClosedBefore t b none k = tt
  same-ClosedBefore t b (some through) k = k

  -- A trade that is not before the last one is not in an interval before the open bar's.
  never_before :
      (t : Trade) (b : OpenBar) (last : Option ℕ)
      → is_before t.event_time last ≡ false
      → BarLies interval last (some b)
      → ltb (bar_start t.event_time interval) b.start ≡ true
      → ⊥
  never_before t b none h k less = elim k [ ]
  never_before t b (some at) h (n, starts, ends, before) less =
      let later = slot_mono interval at t.event_time positive (ltb→ge _ _ h) in
      let ordered = mul-le-mul_right (width interval) (le_trans before later) in
      let start = bar_start-eq t.event_time interval in let strict = ltb→lt _ _ less in omega arith

  bar-IsAfter :
      (b : OpenBar) (closed : Option ℕ)
      → ClosedBefore interval (some b) closed
      → IsAfter closed b.start
  bar-IsAfter b none k = tt
  bar-IsAfter b (some through) (j, same, before) = before

  interval_end :
      (b : OpenBar) (last : Option ℕ)
      → BarLies interval last (some b)
      → b.start + width interval ≡ b.end
  interval_end b none k = elim k [ ]
  interval_end b (some at) (n, starts, ends, before) = omega arith

  end-ClosedBefore :
      (t : Trade) (b : OpenBar) (last : Option ℕ)
      → BarLies interval last (some b)
      → ltb (bar_start t.event_time interval) b.start ≡ false
      → (bar_start t.event_time interval == b.start) ≡ false
      → ClosedBefore interval (some (from_trade interval t)) (some b.end)
  end-ClosedBefore t b none k later other = elim k [ ]
  end-ClosedBefore t b (some at) (n, starts, ends, before) later other =
      let m = slot interval t.event_time in
      let start = bar_start-eq t.event_time interval in
      let next : (n + 1) * width interval ≡ n * width interval + width interval =
        omega (arith, suc-mul n (width interval)) in
      let least = ltb→ge _ _ later in
      let apart = ==→ne _ _ other in
      let reached = starts_after (width interval) (n + 1) m (omega arith) (ground arith) in
      (n + 1, ends ∙ sym next, omega arith)

  module _ (t : Trade) (s : SymbolState) (sound : Sound interval s)
      (in_time : is_before t.event_time s.last_trade_time ≡ false)
      (not_late : is_late (bar_start t.event_time interval + width interval) s.closed_through
        ≡ false) where
    apply_trade-Absorbed :
        (bar : Option OpenBar) (a : Applied)
        → s.open_bar ≡ bar
        → apply_trade interval t s bar ≡ ok a
        → Absorbed interval s (trade t) a
    apply_trade-Absorbed none a found h = rw (← ok_injective h) (record {
      conserved = rw found (omega arith);
      nothing_hidden = refl;
      finalized = tt;
      sound = record {
        bar = new-BarLies t;
        closed = new-ClosedBefore t s.open_bar s.closed_through not_late sound.closed;
      };
    })
    apply_trade-Absorbed (some b) a found h =
        let lies = subst (BarLies interval s.last_trade_time) found sound.bar in
        let closed = subst (λ x. ClosedBefore interval x s.closed_through) found sound.closed in
        elim (Bool-cases (bar_start t.event_time interval == b.start)) [
          | inl same ↦ rw (← ok_injective (rw same at h)) (record {
            conserved = rw found (omega arith);
            nothing_hidden = refl;
            finalized = tt;
            sound = record {
              bar = longer-BarLies t b s.last_trade_time in_time lies;
              closed = same-ClosedBefore t b s.closed_through closed;
            };
          })
          | inr other ↦ elim (Bool-cases (ltb (bar_start t.event_time interval) b.start)) [
            | inl before ↦ absurd (never_before t b s.last_trade_time in_time lies before)
            | inr later ↦
                let (bar, closes, last) =
                  >>=-eq-ok (close b t.received_at) _ (rw (other, later) at h) in
                let (starts, ends, volume) = priced-eq-ok b t.received_at _ bar closes in
                let one = interval_end b s.last_trade_time lies in
                rw (← ok_injective last) (record {
                  conserved = rw found (omega arith);
                  nothing_hidden = refl;
                  finalized = (
                    (
                      rw starts (bar-IsAfter b s.closed_through closed),
                      rw (starts, ends) one,
                      ap some (sym ends),
                    ),
                    tt,
                  );
                  sound = record {
                    bar = new-BarLies t;
                    closed = end-ClosedBefore t b s.last_trade_time lies later other;
                  };
                })
          ]
        ]

  kept :
      (s : SymbolState) (e : MarketEvent) (next : SymbolState) (issues : List Issue)
      → Sound interval next
      → next.open_bar ≡ s.open_bar
      → applied_shares e issues ≡ 0
      → Absorbed interval s e (refused next issues)
  kept s e next issues sound same nothing = record {
    conserved = rw (same, nothing) (omega arith);
    nothing_hidden = refl;
    finalized = tt;
    sound = sound;
  }

  later-BarLies :
      (bar : Option OpenBar) (last : Option ℕ) (at : ℕ)
      → is_before at last ≡ false
      → BarLies interval last bar
      → BarLies interval (some at) bar
  later-BarLies none last at h k = tt
  later-BarLies (some b) none at h k = elim k [ ]
  later-BarLies (some b) (some before) at h (n, starts, ends, low) =
      let later = slot_mono interval before at positive (ltb→ge _ _ h) in
      (n, starts, ends, omega arith)

  volume-Absorbed :
      (t : Trade) (s : SymbolState) (issues : List Issue) (a : Applied)
      → Sound interval s
      → is_before t.event_time s.last_trade_time ≡ false
      → is_late (bar_start t.event_time interval + width interval) s.closed_through ≡ false
      → apply_volume interval t s issues ≡ ok a
      → Absorbed interval s (trade t) a
  volume-Absorbed t s [] a sound in_time not_late h =
      apply_trade-Absorbed t s sound in_time not_late s.open_bar a refl h
  volume-Absorbed t s (i ∷ is) a sound in_time not_late h =
      rw (← ok_injective h) (kept s (trade t) s (i ∷ is) sound refl refl)

  late-kept :
      (t : Trade) (s : SymbolState) (issues : List Issue)
      → Sound interval s
      → Absorbed interval s (trade t) (refused s (late_issues issues))
  late-kept t s [] sound = kept s (trade t) s _ sound refl refl
  late-kept t s (i ∷ is) sound = kept s (trade t) s _ sound refl refl

  -- An event that is applied to a sound symbol leaves it sound. The shares of a trade without an
  -- issue, and no others, are added to the open bar and the finalized bars, a trade that is
  -- dropped is reported, and each finalized bar lasts one interval, starts no earlier than what
  -- was closed before and ends where all is closed now.
  pub apply_event-Absorbed :
      (e : MarketEvent) (s : SymbolState) (a : Applied)
      → Sound interval s
      → apply_event interval e s ≡ ok a
      → Absorbed interval s e a
  unfolding apply_event
  apply_event-Absorbed (quote q) s a sound h =
      elim (Bool-cases (is_before q.event_time s.last_quote_time)) [
        | inl before ↦ rw (← ok_injective (rw before at h)) (kept s (quote q) s _ sound refl refl)
        | inr later ↦
            rw (← ok_injective (rw later at h))
              (kept s (quote q) _ [] (record { bar = sound.bar; closed = sound.closed }) refl refl)
      ]
  apply_event-Absorbed (auction o) s a sound h =
      elim (Bool-cases (is_before o.event_time s.last_trade_time)) [
        | inl before ↦ rw (← ok_injective (rw before at h)) (kept s (auction o) s _ sound refl refl)
        | inr later ↦ rw (← ok_injective (rw later at h)) (
            kept s (auction o) _ []
              (record {
                bar = later-BarLies s.open_bar s.last_trade_time o.event_time later sound.bar;
                closed = sound.closed;
              })
              refl refl)
      ]
  apply_event-Absorbed (trade t) s a sound h =
      elim (Bool-cases (is_before t.event_time s.last_trade_time)) [
        | inl before ↦ rw (← ok_injective (rw before at h)) (kept s (trade t) s _ sound refl refl)
        | inr in_time ↦
            elim (Bool-cases
              (is_late (bar_start t.event_time interval + width interval) s.closed_through)) [
                | inl late ↦ rw (← ok_injective (rw (in_time, late) at h)) (late-kept t s _ sound)
                | inr early ↦ volume-Absorbed t s _ a sound in_time early (rw (in_time, early) at h)
              ]
      ]

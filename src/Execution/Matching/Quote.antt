-- ===== src/Execution/Matching/Quote.antt =====
-- What `match_quote` of execution/matching.py may report.
use native.Mathlib.Nat.{div-add-mod'}
use mini_lakehouse.Common.{
  ℕ, ◌+◌, ◌-◌, ◌*◌, ◌/◌, ◌≤◌, ◌<◌, ◌≡◌, refl, sym, ap, ◌∙◌, Bool, true, false, not, ◌||◌, Option,
  none, some, List, [], ◌∷◌, ◌++◌, any, arith, leb, ◌==◌, contains, ok, err, >>=-eq-ok, >>-eq-ok,
  ok_injective, Bool-cases, inl, inr, if◌then◌else◌, raise_if-eq-ok, ltb→ge, subst, min, Text,
  raise_if,
}
use mini_lakehouse.Execution.Order.{
  Outcome, Instant, EventType, filled, partially_filled, expired, cancelled, PaperOrderIntent,
  PaperFillEvidence, PaperOrderEvent, PaperOrderState, not_accepted, is_created,
}
use mini_lakehouse.Execution.Reducer.{reduce_paper_order, is_terminal}
use mini_lakehouse.Execution.Market.{PaperMarketSnapshot, is_older_than}
use mini_lakehouse.Configuration.Policies.{PaperExecutionVersion, ContextVersion}
use mini_lakehouse.Execution.Matching.{
  Adapter, lifecycle_event, event_of, is_fill_on, price_for, displayed_for, misses_limit, lots,
  emitted, fill_of, built_fill, built_event, fill_quote, trade_quote, open_quote, match_quote,
  filled_with, average_with,
}

-- A test that returns nothing has failed where an event is returned.
skipped :
    (b : Bool) (m : Outcome (Option PaperOrderEvent)) {e : PaperOrderEvent}
    → (if b then ok none else m) ≡ ok (some e)
    → (b ≡ false) × (m ≡ ok (some e))
skipped true m h = let e = ok_injective h in absurd (cc)
skipped false m h = (refl, h)

emitted-eq-ok :
    (m : Outcome PaperOrderEvent) {e : PaperOrderEvent} → emitted m ≡ ok (some e) → m ≡ ok e
emitted-eq-ok (ok x) h = cc
emitted-eq-ok (err x) h = cc

built_event-eq-ok : (e d : PaperOrderEvent) → built_event e ≡ ok d → d ≡ e
built_event-eq-ok e d h = sym (ok_injective (>>-eq-ok _ _ h).1)

built_fill-eq-ok : (f g : PaperFillEvidence) → built_fill f ≡ ok g → g ≡ f
built_fill-eq-ok f g h = sym (ok_injective (>>-eq-ok _ _ h).1)

lots-le-min : (n m lot : ℕ) → lots n m lot ≤ min n m
lots-le-min n m lot = omega (arith, div-add-mod' (min n m) lot)

module _ (adapter : Adapter) (intent : PaperOrderIntent) (events : List PaperOrderEvent) where
  -- The event extends a history that is reduced without an error, and so is the longer one.
  pub record Extends (type : EventType) (at : Instant) (fill : Option PaperFillEvidence)
      (e : PaperOrderEvent) : Type 0 where
    pub before : PaperOrderState
    pub reduced : reduce_paper_order adapter.hashing intent events ≡ ok before
    pub after : PaperOrderState
    pub extended : reduce_paper_order adapter.hashing intent (events ++ e ∷ []) ≡ ok after
    pub evidence : e.fill_evidence ≡ fill
    pub time : e.occurred_at ≡ at
    pub kind : e.event_type ≡ type
    pub total : e.cumulative_filled_quantity ≡ filled_with before.cumulative_filled_quantity fill

  pub lifecycle_event-eq-ok :
      (type : EventType) (at : Instant) (reason : Option Text) (fill : Option PaperFillEvidence)
      (e : PaperOrderEvent)
      → lifecycle_event adapter intent events type at reason fill ≡ ok e
      → Extends type at fill e
  unfolding lifecycle_event
  lifecycle_event-eq-ok type at reason fill e h =
      let (state, reduced, h1) = >>=-eq-ok (reduce_paper_order adapter.hashing intent events) _ h in
      let (average, blend, h2) =
        >>=-eq-ok (average_with state.average_fill_price state.cumulative_filled_quantity fill) _
          h1 in
      let made = event_of adapter intent events state type at reason fill average in
      let (event, built, h3) = >>=-eq-ok (built_event made) _ h2 in
      let same = built_event-eq-ok made event built in
      let (after, extended, last) =
        >>=-eq-ok (reduce_paper_order adapter.hashing intent (events ++ event ∷ [])) (λ x. ok event)
          h3 in
      let e1 = ok_injective last in
      let e2 : e ≡ event_of adapter intent events state type at reason fill average =
        sym e1 ∙ same in
      record {
        before = state;
        reduced = reduced;
        after = after;
        extended =
            subst (λ x. reduce_paper_order adapter.hashing intent (events ++ x ∷ []) ≡ ok after) e1
              extended;
        evidence = ap (λ x. x.fill_evidence) e2;
        time = ap (λ x. x.occurred_at) e2;
        kind = ap (λ x. x.event_type) e2;
        total = ap (λ x. x.cumulative_filled_quantity) e2;
      }

  module _ (market : PaperMarketSnapshot) (policy : PaperExecutionVersion) where
    -- The bounds of a fill of `f.filled_quantity` shares on top of `before`.
    pub record Bounded (before available : ℕ) (f : PaperFillEvidence) : Type 0 where
      pub positive : 0 < f.filled_quantity
      pub in_budget : f.filled_quantity ≤ available
      pub in_order : before + f.filled_quantity ≤ intent.quantity
      pub whole_lots : (n : ℕ) × (f.filled_quantity ≡ n * policy.lot_size)
      pub displayed : available ≤ displayed_for intent.action market
      pub price : f.fill_price ≡ price_for intent.action market
      pub limit : misses_limit intent f.fill_price ≡ false
      pub side : f.action ≡ intent.action
      pub unused : any (is_fill_on market) events ≡ false

    fill_quote-fill :
        (state : PaperOrderState) (available : ℕ) (e : PaperOrderEvent)
        → available ≤ displayed_for intent.action market
        → misses_limit intent (price_for intent.action market) ≡ false
        → fill_quote adapter intent events market policy state available ≡ ok (some e)
        → (f : PaperFillEvidence) × Bounded state.cumulative_filled_quantity available f
          × ((t : EventType) × Extends t market.observed_at (some f) e)
    unfolding fill_quote
    fill_quote-fill state available e shown reached h =
        let left = intent.quantity - state.cumulative_filled_quantity in
        let n = lots left available policy.lot_size in
        let some_left = lots-le-min left available policy.lot_size in
        let (go, h1) = skipped (n == 0 || any (is_fill_on market) events) _ h in
        let (f, built, h2) =
          >>=-eq-ok (built_fill (fill_of adapter intent events market policy available n)) _ h1 in
        let same = built_fill-eq-ok _ f built in
        (
          f,
          rw same (record {
            positive = ground arith;
            in_budget = ground arith;
            in_order = ground arith;
            whole_lots = (min left available / policy.lot_size, refl);
            displayed = shown;
            price = refl;
            limit = reached;
            side = refl;
            unused = ground arith;
          }),
          (
            _,
            lifecycle_event-eq-ok _ market.observed_at none (some f) e (
                emitted-eq-ok
                  (lifecycle_event adapter intent events
                    (if n + state.cumulative_filled_quantity == intent.quantity
                      then filled
                      else partially_filled)
                    market.observed_at none (some f))
                  h2),
          ),
        )

    -- A fill, if there is one, is within the bounds.
    abbrev pub FillBounded : ℕ → ℕ → Option PaperFillEvidence → Type 0
    FillBounded before available none = Unit
    FillBounded before available (some f) = Bounded before available f

    pub record Matched (state : PaperOrderState) (available : ℕ) (e : PaperOrderEvent)
        : Type 0 where
      pub kind : EventType
      pub fill : Option PaperFillEvidence
      pub extends : Extends kind market.observed_at fill e
      pub bounded : FillBounded state.cumulative_filled_quantity available fill

    unfilled-Matched :
        (state : PaperOrderState) (available : ℕ) (t : EventType) (reason : Option Text)
        (e : PaperOrderEvent)
        → emitted (lifecycle_event adapter intent events t market.observed_at reason none)
          ≡ ok (some e)
        → Matched state available e
    unfilled-Matched state available t reason e h = record {
      kind = t;
      fill = none;
      extends = lifecycle_event-eq-ok t market.observed_at reason none e (
          emitted-eq-ok (lifecycle_event adapter intent events t market.observed_at reason none) h);
      bounded = tt;
    }

    trade_quote-Matched :
        (state : PaperOrderState) (available : ℕ) (e : PaperOrderEvent)
        → trade_quote adapter intent events market policy state available ≡ ok (some e)
        → Matched state available e
    unfolding trade_quote
    trade_quote-Matched state available e h =
        let (fresh, h1) =
          skipped
            (leb market.quote_received_at intent.created_at
              || is_older_than market policy.maximum_quote_age_seconds)
            _ h in
        let (budget, h2) = >>-eq-ok _ _ h1 in
        let (reached, h3) = skipped (misses_limit intent (price_for intent.action market)) _ h2 in
        let (f, bounded, (t, extends)) =
          fill_quote-fill state available e (ltb→ge _ _ (raise_if-eq-ok _ _ budget)) reached h3 in
        record { kind = t; fill = some f; extends = extends; bounded = bounded }

    status_quote :
        (context : ContextVersion) (state : PaperOrderState) (available : ℕ) (e : PaperOrderEvent)
        → (if not (contains market.market_status context.tradable_market_statuses)
            then emitted (
                lifecycle_event adapter intent events cancelled market.observed_at
                  (some adapter.market_status_ineligible)
                  none)
            else trade_quote adapter intent events market policy state available)
          ≡ ok (some e)
        → Matched state available e
    status_quote context state available e h =
        elim (Bool-cases (not (contains market.market_status context.tradable_market_statuses))) [
          | inl shut ↦
              unfilled-Matched state available cancelled (some adapter.market_status_ineligible) e
                (rw shut at h)
          | inr tradable ↦ trade_quote-Matched state available e (rw tradable at h)
        ]

    open_quote-Matched :
        (context : ContextVersion) (state : PaperOrderState) (available : ℕ) (e : PaperOrderEvent)
        → open_quote adapter intent events market policy context state available ≡ ok (some e)
        → Matched state available e
    unfolding open_quote
    open_quote-Matched context state available e h =
        elim (Bool-cases (leb intent.expires_at market.observed_at)) [
          | inl late ↦
              unfilled-Matched state available expired (some adapter.time_in_force) e (rw late at h)
          | inr early ↦
              let (accepted, h1) =
                >>-eq-ok (raise_if (is_created state.status) not_accepted) _ (rw early at h) in
              status_quote context state available e h1
        ]

    -- An event that matching a quote returns extends the order's history at the quote's time, so
    -- that the longer history is reduced without an error. If it is a fill, it is for at least
    -- one share and whole lots, no more than the budget and no more than what the order has
    -- left, the budget is at most what the quote displays, the side is the order's, the price is
    -- the quote's and keeps the limit, and no earlier fill was on the same quote.
    pub match_quote-Matched :
        (context : ContextVersion) (available : ℕ) (e : PaperOrderEvent)
        → match_quote adapter intent events market policy context available ≡ ok (some e)
        → (state : PaperOrderState) × (reduce_paper_order adapter.hashing intent events ≡ ok state)
          × Matched state available e
    unfolding match_quote
    match_quote-Matched context available e h =
        let (state, reduced, h1) =
          >>=-eq-ok (reduce_paper_order adapter.hashing intent events) _ h in
        let (alive, h2) = skipped (is_terminal state.status) _ h1 in
        let (same_policy, h3) = >>-eq-ok _ _ h2 in
        let (in_time, h4) = >>-eq-ok _ _ h3 in
        (state, reduced, open_quote-Matched context state available e h4)

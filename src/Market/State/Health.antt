-- ===== src/Market/State/Health.antt =====
-- `health` of t0-trading/src/t0_trading/market/state.py, and when a symbol is ready.
use mini_lakehouse.Common.{
  ℕ, ◌+◌, ◌-◌, ◌*◌, ◌≤◌, ◌≡◌, ◌↔◌, refl, inl, inr, Bool, true, false, ◌||◌, Option, none, some,
  List, [], ◌∷◌, ◌++◌, map, arith, ltb, any, keep_if, is_empty, Bool-cases, Result, err, ok, ◌>>◌,
  >>-eq-ok, raise_if, ok_injective, ltb→ge, if◌then◌else◌,
}
use mini_lakehouse.Configuration.Market.{TradingVersion}
use mini_lakehouse.Market.State.Symbol.{
  Trade, QuoteSnapshot, SymbolState, Issue, late_trade, quote_time_regression,
  receipt_time_regression, sequence_gap, sequence_regression, trade_time_regression,
  trade_volume_duplicate, trade_volume_gap, trade_volume_regression, same_issue, StateError,
  unknown_symbol, required_late,
}
use mini_lakehouse.Market.State.{MarketState, get}

-- The issues in the order of their names.
abbrev all_issues : List Issue
all_issues =
    late_trade ∷ quote_time_regression ∷ receipt_time_regression ∷ sequence_gap
    ∷ sequence_regression ∷ trade_time_regression ∷ trade_volume_duplicate ∷ trade_volume_gap
    ∷ trade_volume_regression ∷ []

-- `integrity_issues`
abbrev pub integrity_issues : MarketState → List Issue
integrity_issues s = keep_if (λ i. any (same_issue i) s.noted) all_issues

pub data Reason : Type 0 where
  integrity : Issue → Reason
  missing_trade future_trade stale_trade : Reason
  missing_quote future_quote stale_quote incomplete_quote : Reason

pub record MarketHealth : Type 0 where
  pub symbol : ℕ
  pub evaluated_at : ℕ
  pub is_ready : Bool
  pub reasons : List Reason

-- `required_since is not None and (event_time < required_since or received_at < required_since)`
abbrev pub precedes_required : Option ℕ → ℕ → ℕ → Bool
precedes_required none event_time received_at = false
precedes_required (some since) event_time received_at =
    ltb event_time since || ltb received_at since

-- `evaluated_at - received_at > timedelta(seconds=seconds)`, of a receipt that is not later.
abbrev pub is_stale : ℕ → ℕ → ℕ → Bool
is_stale evaluated received seconds = ltb (seconds * 1000000) (evaluated - received)

abbrev pub trade_reasons : ℕ → ℕ → Option ℕ → Option Trade → List Reason
trade_reasons limit evaluated since none = missing_trade ∷ []
trade_reasons limit evaluated since (some t) =
    if precedes_required since t.event_time t.received_at
    then missing_trade ∷ []
    else if ltb evaluated t.received_at
    then future_trade ∷ []
    else if is_stale evaluated t.received_at limit
    then stale_trade ∷ []
    else []

abbrev pub quote_age : ℕ → ℕ → QuoteSnapshot → List Reason
quote_age limit evaluated q =
    if ltb evaluated q.received_at
    then future_quote ∷ []
    else if is_stale evaluated q.received_at limit
    then stale_quote ∷ []
    else []

abbrev pub quote_reasons : ℕ → ℕ → Option ℕ → Option QuoteSnapshot → List Reason
quote_reasons limit evaluated since none = missing_quote ∷ []
quote_reasons limit evaluated since (some q) =
    if precedes_required since q.event_time q.received_at
    then missing_quote ∷ []
    else quote_age limit evaluated q ++ (if q.is_complete then [] else incomplete_quote ∷ [])

-- `required_since > evaluated_at`
abbrev pub is_required_late : Option ℕ → ℕ → Bool
is_required_late none evaluated = false
is_required_late (some since) evaluated = ltb evaluated since

module _ (c : TradingVersion) (symbol evaluated : ℕ) (since : Option ℕ) where
  -- No reason stands twice, so `dict.fromkeys` keeps them all.
  abbrev pub reasons_for : MarketState → SymbolState → List Reason
  reasons_for s state =
      map integrity (integrity_issues s)
      ++ (trade_reasons c.data_quality.trade_stale_after_seconds evaluated since state.latest_trade
          ++ quote_reasons c.data_quality.quote_stale_after_seconds evaluated since
              state.latest_quote)

  abbrev pub health_of : MarketState → Option SymbolState → Result StateError MarketHealth
  health_of s none = err unknown_symbol
  health_of s (some state) =
      let reasons = reasons_for s state in
      ok (record {
        symbol = symbol;
        evaluated_at = evaluated;
        is_ready = is_empty reasons;
        reasons = reasons;
      })

  unfoldable pub health : MarketState → Result StateError MarketHealth
  health s =
      raise_if (is_required_late since evaluated) required_late
      >> health_of s (get symbol s.symbols)

-- Received no later than the evaluation, no longer before it than the limit, and neither received
-- nor timed before what is required.
pub record Fresh (limit evaluated : ℕ) (since : Option ℕ) (event_time received_at : ℕ)
    : Type 0 where
  required : precedes_required since event_time received_at ≡ false
  received : received_at ≤ evaluated
  recent : evaluated ≤ received_at + limit * 1000000

-- What a ready symbol needs.
pub record Ready (c : TradingVersion) (evaluated : ℕ) (since : Option ℕ) (s : MarketState)
    (state : SymbolState) : Type 0 where
  no_issues : integrity_issues s ≡ []
  trade : Trade
  traded : state.latest_trade ≡ some trade
  fresh_trade :
      Fresh c.data_quality.trade_stale_after_seconds evaluated since trade.event_time
        trade.received_at
  quote : QuoteSnapshot
  quoted : state.latest_quote ≡ some quote
  fresh_quote :
      Fresh c.data_quality.quote_stale_after_seconds evaluated since quote.event_time
        quote.received_at
  complete : quote.is_complete ≡ true

append_empty :
    {A : Type 0} (xs ys : List A) → is_empty (xs ++ ys) ≡ true → (xs ≡ []) × (is_empty ys ≡ true)
append_empty [] ys h = (refl, h)
append_empty (x ∷ xs) ys h = cc

nonempty : {A : Type 0} {x : A} {xs : List A} → x ∷ xs ≡ [] → ⊥
nonempty h = cc

fresh :
    (limit evaluated : ℕ) (since : Option ℕ) (event_time received_at : ℕ)
    → precedes_required since event_time received_at ≡ false
    → ltb evaluated received_at ≡ false
    → is_stale evaluated received_at limit ≡ false
    → Fresh limit evaluated since event_time received_at
fresh limit evaluated since event_time received_at required received recent =
    let before = ltb→ge evaluated received_at received in
    let young = ltb→ge _ _ recent in
    record { required = required; received = before; recent = omega arith }

trade-Fresh :
    (limit evaluated : ℕ) (since : Option ℕ) (found : Option Trade)
    → trade_reasons limit evaluated since found ≡ []
    → (t : Trade) × (found ≡ some t) × Fresh limit evaluated since t.event_time t.received_at
trade-Fresh limit evaluated since none h = cc
trade-Fresh limit evaluated since (some t) h =
    elim (Bool-cases (precedes_required since t.event_time t.received_at)) [
      | inl before ↦ absurd (nonempty (rw before at h))
      | inr required ↦ elim (Bool-cases (ltb evaluated t.received_at)) [
        | inl future ↦ absurd (nonempty (rw (required, future) at h))
        | inr received ↦ elim (Bool-cases (is_stale evaluated t.received_at limit)) [
          | inl stale ↦ absurd (nonempty (rw (required, received, stale) at h))
          | inr recent ↦ (
            t,
            refl,
            fresh limit evaluated since t.event_time t.received_at required received recent,
          )
        ]
      ]
    ]

quote-Fresh :
    (limit evaluated : ℕ) (since : Option ℕ) (found : Option QuoteSnapshot)
    → quote_reasons limit evaluated since found ≡ []
    → (q : QuoteSnapshot) × (found ≡ some q)
      × Fresh limit evaluated since q.event_time q.received_at
      × (q.is_complete ≡ true)
quote-Fresh limit evaluated since none h = cc
quote-Fresh limit evaluated since (some q) h =
    elim (Bool-cases (precedes_required since q.event_time q.received_at)) [
      | inl before ↦ absurd (nonempty (rw before at h))
      | inr required ↦ elim (Bool-cases (ltb evaluated q.received_at)) [
        | inl future ↦ absurd (nonempty (rw (required, future) at h))
        | inr received ↦ elim (Bool-cases (is_stale evaluated q.received_at limit)) [
          | inl stale ↦ absurd (nonempty (rw (required, received, stale) at h))
          | inr recent ↦ elim (Bool-cases q.is_complete) [
            | inl complete ↦ (
              q,
              refl,
              fresh limit evaluated since q.event_time q.received_at required received recent,
              complete,
            )
            | inr partial ↦ absurd (nonempty (simp (required, received, recent, partial) at h))
          ]
        ]
      ]
    ]

trade_quiet :
    (limit evaluated : ℕ) (since : Option ℕ) (t : Trade)
    → Fresh limit evaluated since t.event_time t.received_at
    → trade_reasons limit evaluated since (some t) ≡ []
trade_quiet limit evaluated since t f =
    let required = f.required in
    let received : ltb evaluated t.received_at ≡ false = let k = f.received in ground arith in
    let recent : is_stale evaluated t.received_at limit ≡ false =
      let k = f.recent in ground arith in
    rw (required, received, recent) refl

quote_quiet :
    (limit evaluated : ℕ) (since : Option ℕ) (q : QuoteSnapshot)
    → Fresh limit evaluated since q.event_time q.received_at
    → q.is_complete ≡ true
    → quote_reasons limit evaluated since (some q) ≡ []
quote_quiet limit evaluated since q f complete =
    let required = f.required in
    let received : ltb evaluated q.received_at ≡ false = let k = f.received in ground arith in
    let recent : is_stale evaluated q.received_at limit ≡ false =
      let k = f.recent in ground arith in
    simp (required, received, recent, complete)

empty_eq : {A : Type 0} (xs : List A) → is_empty xs ≡ true → xs ≡ []
empty_eq [] h = refl
empty_eq (x ∷ xs) h = cc

map_empty : {A B : Type 0} (f : A → B) (xs : List A) → map f xs ≡ [] → xs ≡ []
map_empty f [] h = refl
map_empty f (x ∷ xs) h = cc

module _ (c : TradingVersion) (symbol evaluated : ℕ) (since : Option ℕ) (s : MarketState) where
  reasons-Ready :
      (state : SymbolState)
      → is_empty (reasons_for c symbol evaluated since s state) ≡ true
      → Ready c evaluated since s state
  reasons-Ready state h =
      let (issues, h1) = append_empty (map integrity (integrity_issues s)) _ h in
      let (trades, h2) =
        append_empty
          (trade_reasons c.data_quality.trade_stale_after_seconds evaluated since
            state.latest_trade)
          _ h1 in
      let (t, traded, fresh_trade) = trade-Fresh _ evaluated since state.latest_trade trades in
      let (q, quoted, fresh_quote, complete) =
        quote-Fresh _ evaluated since state.latest_quote (empty_eq _ h2) in
      record {
        no_issues = map_empty integrity (integrity_issues s) issues;
        trade = t;
        traded = traded;
        fresh_trade = fresh_trade;
        quote = q;
        quoted = quoted;
        fresh_quote = fresh_quote;
        complete = complete;
      }

  Ready-reasons :
      (state : SymbolState)
      → Ready c evaluated since s state
      → is_empty (reasons_for c symbol evaluated since s state) ≡ true
  Ready-reasons state r =
      rw
        (
          r.no_issues,
          r.traded,
          r.quoted,
          trade_quiet _ evaluated since (r.trade) (r.fresh_trade),
          quote_quiet _ evaluated since (r.quote) (r.fresh_quote) (r.complete),
        )
        refl

  health_of-is_ready :
      (found : Option SymbolState) (h : MarketHealth)
      → health_of c symbol evaluated since s found ≡ ok h
      → (state : SymbolState) × (found ≡ some state)
        × ((h.is_ready ≡ true) ↔ Ready c evaluated since s state)
  health_of-is_ready none h e = cc
  health_of-is_ready (some state) h e =
      (state, refl, rw (← ok_injective e) (reasons-Ready state, Ready-reasons state))

  -- Where `health` returns, the symbol is configured, and it is reported ready exactly when no
  -- integrity issue was noted, and its latest trade and its latest quote are there, were received
  -- no later than the evaluation and within their limits, are not before what is required, and
  -- the quote is complete.
  pub health-is_ready_iff :
      (h : MarketHealth)
      → health c symbol evaluated since s ≡ ok h
      → (state : SymbolState) × (get symbol s.symbols ≡ some state)
        × ((h.is_ready ≡ true) ↔ Ready c evaluated since s state)
  unfolding health
  health-is_ready_iff h e =
      let (_, e1) = >>-eq-ok (raise_if (is_required_late since evaluated) required_late) _ e in
      health_of-is_ready (get symbol s.symbols) h e1

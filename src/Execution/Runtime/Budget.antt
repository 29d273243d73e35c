-- ===== src/Execution/Runtime/Budget.antt =====
-- The displayed liquidity that the loop of `process_quote` in t0-trading/src/t0_trading/execution/runtime.py
-- hands to one order after another.
use mini_lakehouse.Common.{
  ℕ, ◌+◌, ◌-◌, ◌≤◌, ◌≡◌, refl, sym, ap, ◌∙◌, inl, inr, Bool, true, false, ◌||◌, Option, none, some,
  List, [], ◌∷◌, ◌++◌, arith, ltb, ◌==◌, ◌!=◌, find, sum_of, sum_of-append, ◌⊎◌, Bool-cases,
  if◌then◌else◌, ok, err, >>=-eq-ok, >>-eq-ok, raise_if, ok_injective,
}
use mini_lakehouse.Common.Decimal
use mini_lakehouse.Common.Sort.{sorted}
use mini_lakehouse.Configuration.Policies.{PaperExecutionVersion, ContextVersion}
use mini_lakehouse.Configuration.Versions.{
  TradingConfiguration, resolve, resolve_paper_execution, resolve_context,
}
use mini_lakehouse.Execution.Order.{
  Outcome, Action, buy, sell, same_action, PaperOrderIntent, PaperOrderEvent, PaperFillEvidence,
}
use mini_lakehouse.Execution.Market.{PaperMarketSnapshot}
use mini_lakehouse.Execution.Matching.{match_quote, displayed_for}
use mini_lakehouse.Execution.Matching.Quote.{FillBounded, match_quote-Matched}
use mini_lakehouse.Execution.Runtime.{
  Services, PaperSession, Operation, submitted, happened, executed, intents_of, events_for,
  digest_of, reduced, settled, append, append_on, finish, reconcile, quote_date,
}
use mini_lakehouse.Execution.Runtime.Transitions.{
  Budgets, budget_of, spent, budgets_for, filled_of, matched, match_one, match_all, process_quote,
  configured, quote_under, quote_after, is_repeated, check_cursor, markets_with, by_priority,
}

-- The shares of one side in the fill of an event.
abbrev pub filled_on : Action → Option PaperFillEvidence → ℕ
filled_on a none = 0
filled_on a (some f) = if same_action a f.action then f.filled_quantity else 0

abbrev pub filled_in : Action → Operation → ℕ
filled_in a (submitted i) = 0
filled_in a (happened e) = filled_on a e.fill_evidence

-- The shares of one side that the operations of a session fill.
abbrev pub fills : Action → List Operation → ℕ
fills a ops = sum_of (filled_in a) ops

spent-budget :
    (a x : Action) (n : ℕ) (b : Budgets)
    → n ≤ budget_of x b
    → (if same_action a x then n else 0) + budget_of a (spent x n b) ≡ budget_of a b
spent-budget buy buy n b h = omega arith
spent-budget buy sell n b h = omega arith
spent-budget sell buy n b h = omega arith
spent-budget sell sell n b h = omega arith

unspent : (a x : Action) (b : Budgets) → 0 + budget_of a (spent x 0 b) ≡ budget_of a b
unspent buy buy b = omega arith
unspent buy sell b = omega arith
unspent sell buy b = omega arith
unspent sell sell b = omega arith

capped : (same : Bool) (n before : ℕ) → (if same then n - before else n) ≤ n
capped true n before = omega arith
capped false n before = omega arith

budgets_for-le :
    (a : Action) (previous : Option PaperMarketSnapshot) (m : PaperMarketSnapshot)
    → budget_of a (budgets_for previous m) ≤ displayed_for a m
budgets_for-le buy none m = omega arith
budgets_for-le sell none m = omega arith
budgets_for-le buy (some p) m =
    capped (Decimal.eq p.best_ask_price m.best_ask_price) m.best_ask_quantity p.best_ask_quantity
budgets_for-le sell (some p) m =
    capped (Decimal.eq p.best_bid_price m.best_bid_price) m.best_bid_quantity p.best_bid_quantity

executed-eq-ok : {A : Type 0} (x : Outcome A) (y : A) → executed x ≡ ok y → x ≡ ok y
executed-eq-ok (ok x) y h = cc
executed-eq-ok (err x) y h = cc

module _ (services : Services) where
  append_on-operations :
      (s t : PaperSession) (e : PaperOrderEvent) (found : Option PaperOrderIntent)
      → append_on services s e found ≡ ok t
      → t.operations ≡ s.operations ++ happened e ∷ []
  append_on-operations s t e none h = cc
  append_on-operations s t e (some i) h =
      let (state, reduces, h1) =
        >>=-eq-ok (reduced services i (events_for (digest_of services i) s.operations ++ e ∷ [])) _
          h in
      let (ledger, settles, h2) = >>=-eq-ok (settled services s.costs s.ledger i state) _ h1 in
      ap (λ x. x.operations) (sym (ok_injective h2))

  append-operations :
      (s t : PaperSession) (e : PaperOrderEvent)
      → append services s (happened e) ≡ ok t
      → t.operations ≡ s.operations ++ happened e ∷ []
  unfolding append
  append-operations s t e h = append_on-operations s t e _ h

  finish-operations :
      (s t u : PaperSession)
      → finish services s t ≡ ok u
      → (u.operations ≡ s.operations) ⊎ (u.operations ≡ t.operations)
  unfolding finish
  finish-operations s t u h = elim (Bool-cases (services.same_session t s)) [
    | inl same ↦ inl (ap (λ x. x.operations) (sym (ok_injective (rw same at h))))
    | inr other ↦
        let (checked, h1) =
          >>-eq-ok (reconcile services (record t { revision = s.revision + 1 })) _
            (rw other at h) in
        inr (ap (λ x. x.operations) (sym (ok_injective h1)))
  ]

  module _ (c : TradingConfiguration) (m : PaperMarketSnapshot) (policy : PaperExecutionVersion)
      (context : ContextVersion) where
    -- Shares that are filled leave the budget of their side.
    abbrev Balanced : Action → PaperSession × Budgets → PaperSession × Budgets → Type 0
    Balanced a now next =
        fills a (next.0.operations) + budget_of a (next.1)
        ≡ fills a (now.0.operations) + budget_of a (now.1)

    evidence-spent :
        (i : PaperOrderIntent) (history : List PaperOrderEvent) (a : Action) (b : Budgets)
        (before : ℕ) (fill : Option PaperFillEvidence)
        → FillBounded services.adapter i history m policy before (budget_of i.action b) fill
        → filled_on a fill + budget_of a (spent i.action (filled_of fill) b) ≡ budget_of a b
    evidence-spent i history a b before none h = unspent a i.action b
    evidence-spent i history a b before (some f) h =
        rw (h.side) (spent-budget a i.action f.filled_quantity b (h.in_budget))

    fill-spent :
        (a : Action) (s : PaperSession) (b : Budgets) (i : PaperOrderIntent) (e : PaperOrderEvent)
        → match_quote services.adapter i
            (events_for (digest_of services i) s.operations)
            m
            policy
            context
            (budget_of i.action b)
          ≡ ok (some e)
        → filled_on a e.fill_evidence + budget_of a (spent i.action (filled_of e.fill_evidence) b)
          ≡ budget_of a b
    fill-spent a s b i e h =
        let history = events_for (digest_of services i) s.operations in
        let (state, reduces, facts) =
          match_quote-Matched services.adapter i history m policy context (budget_of i.action b) e
            h in
        rw facts.extends.evidence
          (evidence-spent i history a b state.cumulative_filled_quantity facts.fill facts.bounded)

    matched-Balanced :
        (a : Action) (s : PaperSession) (b : Budgets) (i : PaperOrderIntent)
        (found : Option PaperOrderEvent) (next : PaperSession × Budgets)
        → match_quote services.adapter i
            (events_for (digest_of services i) s.operations)
            m
            policy
            context
            (budget_of i.action b)
          ≡ ok found
        → matched services c m s b i found ≡ ok next
        → Balanced a (s, b) next
    matched-Balanced a s b i none next found h = rw (← ok_injective h) refl
    matched-Balanced a s b i (some e) next found h =
        let (t, appends, h1) = >>=-eq-ok (append services s (happened e)) _ h in
        rw
          (
            ← ok_injective h1,
            append-operations s t e appends,
            sum_of-append (filled_in a) s.operations (happened e ∷ []),
          )
          (omega (arith, fill-spent a s b i e found))

    match_one-Balanced :
        (a : Action) (s : PaperSession) (b : Budgets) (i : PaperOrderIntent)
        (next : PaperSession × Budgets)
        → match_one services c m policy context s b i ≡ ok next
        → Balanced a (s, b) next
    match_one-Balanced a s b i next h =
        elim (Bool-cases (i.symbol != m.symbol || ltb m.observed_at i.created_at)) [
          | inl skips ↦ let same = ok_injective (rw skips at h) in rw (← same) refl
          | inr meets ↦
              let (found, matches, h1) =
                >>=-eq-ok
                  (executed (
                    match_quote services.adapter i (events_for (digest_of services i) s.operations)
                      m policy context (budget_of i.action b)))
                  (matched services c m s b i) (rw meets at h) in
              matched-Balanced a s b i found next (executed-eq-ok _ found matches) h1
        ]

    match_all-Balanced :
        (a : Action) (now next : PaperSession × Budgets) (is : List PaperOrderIntent)
        → match_all services c m policy context now is ≡ ok next
        → Balanced a now next
    match_all-Balanced a now next [] h = rw (ok_injective h) refl
    match_all-Balanced a now next (i ∷ is) h =
        let (one, matches, h1) =
          >>=-eq-ok (match_one services c m policy context (now.0) (now.1) i)
            (λ x. match_all services c m policy context x is) h in
        match_all-Balanced a one next is h1 ∙ match_one-Balanced a (now.0) (now.1) i one matches

  module _ (c : TradingConfiguration) (m : PaperMarketSnapshot) (a : Action)
      (s t : PaperSession) where
    -- The session has on a side no more fills than before and the budget for the side.
    abbrev Within : Option PaperMarketSnapshot → Type 0
    Within previous =
        fills a t.operations ≤ fills a s.operations + budget_of a (budgets_for previous m)

    unchanged-Within : (previous : Option PaperMarketSnapshot) → s ≡ t → Within previous
    unchanged-Within previous same = rw (← same) (omega arith)

    quote_under-Within :
        (previous : Option PaperMarketSnapshot) (policy : Option PaperExecutionVersion)
        → quote_under services c m previous s policy ≡ ok t
        → Within previous
    quote_under-Within previous none h = unchanged-Within previous (ok_injective h)
    quote_under-Within previous (some policy) h =
        let (context, _, h1) = >>=-eq-ok (configured (resolve_context c s.ledger.trade_date)) _ h in
        let orders = sorted (by_priority (digest_of services)) (intents_of s.operations) in
        let (now, matches, h2) =
          >>=-eq-ok (match_all services c m policy context (s, budgets_for previous m) orders) _
            h1 in
        let balance =
          match_all-Balanced c m policy context a (s, budgets_for previous m) now orders matches in
        elim (finish-operations s (record now.0 { markets = markets_with m (now.0.markets) }) t
          h2) [
            | inl before ↦ rw before (omega arith)
            | inr after_ ↦ rw after_ (omega (arith, balance))
          ]

    quote_after-Within :
        (previous : Option PaperMarketSnapshot)
        → quote_after services c m s previous ≡ ok t
        → Within previous
    quote_after-Within previous h = elim (Bool-cases (is_repeated services c m previous)) [
      | inl repeated ↦ unchanged-Within previous (ok_injective (rw repeated at h))
      | inr fresh ↦
          let (_, h1) = >>-eq-ok (check_cursor previous m) _ (rw fresh at h) in
          let (policy, _, h2) =
            >>=-eq-ok (configured (resolve_paper_execution c s.ledger.trade_date))
              (quote_under services c m previous s) h1 in
          quote_under-Within previous policy h2
    ]

    -- A quote that is processed without an error adds fills on each side of no more shares than
    -- that side's budget, which is at most what the quote displays on it.
    pub process_quote-Within :
        process_quote services c m s ≡ ok t
        → Within (find (λ x. x.symbol == m.symbol) s.markets)
          × (budget_of a (budgets_for (find (λ x. x.symbol == m.symbol) s.markets) m)
              ≤ displayed_for a m)
    unfolding process_quote
    process_quote-Within h =
        let (trading, _, h1) = >>=-eq-ok (configured (resolve c s.ledger.trade_date)) _ h in
        let (_, h2) =
          >>-eq-ok
            (raise_if
              (services.local_date trading.market.timezone m.observed_at != s.ledger.trade_date)
              quote_date)
            _ h1 in
        (quote_after-Within _ h2, budgets_for-le a _ m)

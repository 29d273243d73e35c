-- ===== src/Execution/Runtime/Transitions.antt =====
-- The transitions of t0-trading/src/t0_trading/execution/runtime.py: submissions, the clock, cancels and
-- quotes. Instants are aware, so the test of `at.tzinfo` has no counterpart.
use mini_lakehouse.Common.{
  Text, ℕ, ◌-◌, Bool, true, false, not, ◌&&◌, ◌||◌, Option, none, some, List, [], ◌∷◌, ◌++◌, ltb,
  leb, ◌==◌, ◌!=◌, any, find, keep_if, same_id, Result, err, ok, ◌>>=◌, ◌>>◌, raise_if,
  if◌then◌else◌,
}
use mini_lakehouse.Common.Decimal
use mini_lakehouse.Common.Sort.{sorted}
use mini_lakehouse.Configuration.{ConfigurationError}
use mini_lakehouse.Configuration.Policies.{
  PaperExecutionVersion, PromotionGateVersion, ContextVersion,
}
use mini_lakehouse.Configuration.Versions.{
  TradingConfiguration, resolve, resolve_context, resolve_paper_execution, resolve_promotion_gate,
  resolve_candidate_arbitration,
}
use mini_lakehouse.Arbitration.{ArbitrationPolicy}
use mini_lakehouse.Promotion.{PromotionGateReport}
use mini_lakehouse.Execution.Order.{
  Instant, Action, is_buy, is_entry, PaperOrderIntent, PaperOrderEvent, PaperFillEvidence,
  EventType, accepted, expired, cancelled,
}
use mini_lakehouse.Execution.Reducer.{is_terminal}
use mini_lakehouse.Execution.Resources.{is_open}
use mini_lakehouse.Execution.Market.{PaperMarketSnapshot}
use mini_lakehouse.Execution.Requests.{
  PaperExecutionRequest, PaperExitRequest, PaperBlockReason, validate_exit_request,
}
use mini_lakehouse.Execution.Planner.{plan_paper_order, plan_paper_exit}
use mini_lakehouse.Execution.Matching.{lifecycle_event, match_quote}
use mini_lakehouse.Execution.Readiness.{
  ReadinessError, ResearchLineage, PaperReadiness, same_lineage, resolve_research_lineage,
}
use mini_lakehouse.Execution.Runtime.{
  Services, PaperSession, submitted, happened, Runtime, executed, configuration, readiness,
  no_effective_policy, blocked_by, no_lineage, lineage_mismatch, stale_resources, unknown_parent,
  unknown_intent, quote_date, quote_regression, intents_of, events_for, digest_of, reduced, append,
  finish,
}

abbrev pub configured : {A : Type 0} → Result ConfigurationError A → Runtime A
configured (ok x) = ok x
configured (err e) = err (configuration e)

abbrev pub readied : {A : Type 0} → Result ReadinessError A → Runtime A
readied (ok x) = ok x
readied (err e) = err (readiness e)

-- What is left of the displayed liquidity for each action.
pub record Budgets : Type 0 where
  pub for_buys : ℕ
  pub for_sells : ℕ

abbrev pub budget_of : Action → Budgets → ℕ
budget_of a b = if is_buy a then b.for_buys else b.for_sells

abbrev pub spent : Action → ℕ → Budgets → Budgets
spent a n b =
    if is_buy a
    then record b { for_buys = b.for_buys - n }
    else record b { for_sells = b.for_sells - n }

-- The displayed quantities, or what an unchanged price adds to the previous ones.
abbrev pub budgets_for : Option PaperMarketSnapshot → PaperMarketSnapshot → Budgets
budgets_for none m = record { for_buys = m.best_ask_quantity; for_sells = m.best_bid_quantity }
budgets_for (some p) m = record {
  for_buys =
      if Decimal.eq p.best_ask_price m.best_ask_price
      then m.best_ask_quantity - p.best_ask_quantity
      else m.best_ask_quantity;
  for_sells =
      if Decimal.eq p.best_bid_price m.best_bid_price
      then m.best_bid_quantity - p.best_bid_quantity
      else m.best_bid_quantity;
}

-- The test of the previous quote's cursor.
abbrev pub regresses : PaperMarketSnapshot → PaperMarketSnapshot → Bool
regresses p m =
    (p.stream_session_id == m.stream_session_id && p.receive_sequence == m.receive_sequence)
    || ltb m.quote_received_at p.quote_received_at
    || ltb m.observed_at p.observed_at
    || (m.stream_session_id == p.stream_session_id && leb m.receive_sequence p.receive_sequence)

abbrev pub check_cursor : Option PaperMarketSnapshot → PaperMarketSnapshot → Runtime Unit
check_cursor none m = ok tt
check_cursor (some p) m = raise_if (regresses p m) quote_regression

-- `(item.priority, item.created_at, item.sha256)`, of the digests.
abbrev pub by_priority : (PaperOrderIntent → ℕ) → PaperOrderIntent → PaperOrderIntent → Bool
by_priority digest a b =
    ltb a.priority b.priority
    || (a.priority == b.priority
        && (ltb a.created_at b.created_at
            || (a.created_at == b.created_at && leb (digest a) (digest b))))

abbrev pub market_le : PaperMarketSnapshot → PaperMarketSnapshot → Bool
market_le a b = leb a.symbol b.symbol

-- The cursors with the quote in place of its symbol's.
abbrev pub markets_with : PaperMarketSnapshot → List PaperMarketSnapshot → List PaperMarketSnapshot
markets_with m ms = sorted market_le (keep_if (λ x. x.symbol != m.symbol) ms ++ m ∷ [])

abbrev pub filled_of : Option PaperFillEvidence → ℕ
filled_of none = 0
filled_of (some f) = f.filled_quantity

module _ (services : Services) where
  open services use {
    adapter, ledgers, plans, identities, local_date, same_ledger, same_market, same_intent,
    same_account, same_costs, same_promotion,
  }

  abbrev pub lifecycle :
      PaperOrderIntent
      → List PaperOrderEvent
      → EventType
      → Instant
      → Option Text
      → Runtime PaperOrderEvent
  lifecycle i events type at reason =
      executed (lifecycle_event adapter i events type at reason none)

  -- The last part of both submissions: the intent, its acceptance and `_finish`.
  abbrev pub submit : PaperSession → PaperOrderIntent → Runtime PaperSession
  submit s i = do
    with_intent ← append services s (submitted i)
    event ← lifecycle i [] accepted i.created_at none
    result ← append services with_intent (happened event)
    finish services s result

  -- `if plan.intent is None: raise PaperOrderBlocked(plan.reasons)`
  abbrev pub submit_plan :
      PaperSession → List PaperBlockReason → Option PaperOrderIntent → Runtime PaperSession
  submit_plan s reasons none = err (blocked_by reasons)
  submit_plan s reasons (some i) = submit s i

  abbrev pub differs_in_promotion : Option PromotionGateReport → PromotionGateReport → Bool
  differs_in_promotion none p = true
  differs_in_promotion (some q) p = not (same_promotion q p)

  -- The tests before and after the lineage of the configuration is resolved.
  abbrev pub mismatches_early : PaperSession → PaperExecutionRequest → PaperReadiness → Bool
  mismatches_early s q r =
      differs_in_promotion r.promotion q.promotion
      || r.trade_date != q.candidate.trade_date
      || leb r.trade_date r.previous_session
      || not (same_account q.account s.account)
      || not (same_costs q.costs s.costs)
      || r.trade_date != s.ledger.trade_date

  abbrev pub mismatches_late : PaperExecutionRequest → ResearchLineage → ResearchLineage → Bool
  mismatches_late q lineage active =
      not (same_lineage lineage active)
      || q.candidate.baseline_version != lineage.baseline_version
      || not (
          same_id q.candidate.context_configuration_sha256
            (some lineage.context_configuration_sha256))

  abbrev pub is_planned : PaperSession → PaperExecutionRequest → Bool
  is_planned s q =
      any (λ i. is_entry i.leg && i.arbitration_sha256 == plans.arbitration_digest q.arbitration)
        (intents_of s.operations)

  abbrev pub plan_entry :
      TradingConfiguration
      → PaperSession
      → PaperExecutionRequest
      → Option PaperExecutionVersion
      → Option PromotionGateVersion
      → Option ArbitrationPolicy
      → Runtime PaperSession
  plan_entry c s q (some policy) (some gate) (some arbitration) = do
    context ← configured (resolve_context c s.ledger.trade_date)
    plan ← executed (plan_paper_order plans q policy arbitration context gate)
    submit_plan s plan.reasons plan.intent
  plan_entry c s q none gate arbitration = err no_effective_policy
  plan_entry c s q (some policy) none arbitration = err no_effective_policy
  plan_entry c s q (some policy) (some gate) none = err no_effective_policy

  -- A matching admission of an order that is not planned yet.
  abbrev pub submit_admitted :
      TradingConfiguration → PaperSession → PaperExecutionRequest → Runtime PaperSession
  submit_admitted c s q =
      if is_planned s q
      then ok s
      else raise_if (not (same_ledger q.resources s.ledger)) stale_resources
        >> (configured (resolve_paper_execution c s.ledger.trade_date) >>= λ policy.
            configured (resolve_promotion_gate c s.ledger.trade_date) >>= λ gate.
            configured (resolve_candidate_arbitration c s.ledger.trade_date) >>= λ arbitration.
            plan_entry c s q policy gate arbitration)

  abbrev pub submit_with :
      TradingConfiguration
      → PaperSession
      → PaperExecutionRequest
      → PaperReadiness
      → Option ResearchLineage
      → Runtime PaperSession
  submit_with c s q r none = err no_lineage
  submit_with c s q r (some lineage) = do
    raise_if (mismatches_early s q r) lineage_mismatch
    active ← readied (resolve_research_lineage identities c s.ledger.trade_date s.costs)
    raise_if (mismatches_late q lineage active) lineage_mismatch
    submit_admitted c s q

  unfoldable pub submit_entry :
      TradingConfiguration
      → PaperExecutionRequest
      → PaperReadiness
      → PaperSession
      → Runtime PaperSession
  submit_entry c q r s = if not r.is_paper then ok s else submit_with c s q r r.research_lineage

  abbrev pub is_known : PaperOrderIntent → PaperSession → Bool
  is_known i s = any (same_intent i) (intents_of s.operations)

  abbrev pub plan_exit :
      TradingConfiguration
      → PaperOrderIntent
      → PaperMarketSnapshot
      → PaperSession
      → Option PaperExecutionVersion
      → Runtime PaperSession
  plan_exit c i m s none = err no_effective_policy
  plan_exit c i m s (some policy) = do
    state ← reduced services i (events_for (digest_of services i) s.operations)
    let request : PaperExitRequest = record {
      entry_intent = i;
      entry_state = state;
      market = m;
      resources = s.ledger;
    }
    executed (validate_exit_request plans request)
    context ← configured (resolve_context c i.trade_date)
    plan ← executed (plan_paper_exit plans request policy context)
    submit_plan s plan.reasons plan.intent

  unfoldable pub submit_exit :
      TradingConfiguration
      → PaperOrderIntent
      → PaperMarketSnapshot
      → PaperSession
      → Runtime PaperSession
  submit_exit c i m s =
      raise_if (not (is_known i s)) unknown_parent
      >> (if any (λ r. r.entry_intent_sha256 == digest_of services i && is_open r.status)
            s.ledger.reservations
          then (configured (resolve_paper_execution c i.trade_date) >>= plan_exit c i m s)
          else ok s)

  -- The body of the loop in `advance_clock`.
  abbrev pub expire_one : Instant → PaperSession → PaperOrderIntent → Runtime PaperSession
  expire_one at s i = do
    let events = events_for (digest_of services i) s.operations
    state ← reduced services i events
    if not (is_terminal state.status) && leb i.expires_at at
        then (lifecycle i events expired at (some adapter.time_in_force) >>= λ e.
            append services s (happened e))
        else ok s

  abbrev pub expire_all : Instant → PaperSession → List PaperOrderIntent → Runtime PaperSession
  expire_all at s [] = ok s
  expire_all at s (i ∷ is) = expire_one at s i >>= λ t. expire_all at t is

  unfoldable pub advance_clock : Instant → PaperSession → Runtime PaperSession
  advance_clock at s = do
    result ← expire_all at s (intents_of s.operations)
    finish services s result

  unfoldable pub cancel_order :
      PaperOrderIntent → Instant → Text → PaperSession → Runtime PaperSession
  cancel_order i at reason s = do
    raise_if (not (is_known i s)) unknown_intent
    let events = events_for (digest_of services i) s.operations
    state ← reduced services i events
    if is_terminal state.status
        then ok s
        else (lifecycle i events cancelled at (some reason) >>= λ e.
            append services s (happened e) >>= λ result. finish services s result)

  module _ (c : TradingConfiguration) (m : PaperMarketSnapshot) where
    -- The session after an event of the match, with the budgets.
    abbrev pub matched :
        PaperSession
        → Budgets
        → PaperOrderIntent
        → Option PaperOrderEvent
        → Runtime (PaperSession × Budgets)
    matched s b i none = ok (s, b)
    matched s b i (some e) =
        append services s (happened e) >>= λ t. ok (t, spent i.action (filled_of e.fill_evidence) b)

    -- The body of the loop in `process_quote`.
    abbrev pub match_one :
        PaperExecutionVersion
        → ContextVersion
        → PaperSession
        → Budgets
        → PaperOrderIntent
        → Runtime (PaperSession × Budgets)
    match_one policy context s b i =
        if i.symbol != m.symbol || ltb m.observed_at i.created_at
        then ok (s, b)
        else (executed (
              match_quote adapter i (events_for (digest_of services i) s.operations) m policy
                context (budget_of i.action b))
            >>= matched s b i)

    abbrev pub match_all :
        PaperExecutionVersion
        → ContextVersion
        → PaperSession × Budgets
        → List PaperOrderIntent
        → Runtime (PaperSession × Budgets)
    match_all policy context now [] = ok now
    match_all policy context now (i ∷ is) =
        match_one policy context (now.0) (now.1) i >>= λ next. match_all policy context next is

    abbrev pub quote_under :
        Option PaperMarketSnapshot
        → PaperSession
        → Option PaperExecutionVersion
        → Runtime PaperSession
    quote_under previous s none = ok s
    quote_under previous s (some policy) = do
      context ← configured (resolve_context c s.ledger.trade_date)
      now ←
          match_all policy context (s, budgets_for previous m)
            (sorted (by_priority (digest_of services)) (intents_of s.operations))
      finish services s (record now.0 { markets = markets_with m (now.0.markets) })

    -- The quote is the symbol's previous one.
    abbrev pub is_repeated : Option PaperMarketSnapshot → Bool
    is_repeated none = false
    is_repeated (some p) = same_market p m

    abbrev pub quote_after : PaperSession → Option PaperMarketSnapshot → Runtime PaperSession
    quote_after s previous =
        if is_repeated previous
        then ok s
        else check_cursor previous m
          >> (configured (resolve_paper_execution c s.ledger.trade_date) >>= quote_under previous s)

    unfoldable pub process_quote : PaperSession → Runtime PaperSession
    process_quote s = do
      trading ← configured (resolve c s.ledger.trade_date)
      raise_if (local_date trading.market.timezone m.observed_at != s.ledger.trade_date) quote_date
      quote_after s (find (λ x. x.symbol == m.symbol) s.markets)

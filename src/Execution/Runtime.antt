-- ===== src/Execution/Runtime.antt =====
-- The paper session of t0-trading/src/t0_trading/execution/runtime.py: its operations, the replay that
-- validates it, and the incremental `_append`.
pub mod Transitions
pub mod Boundary
pub mod Replay
pub mod Budget
pub mod Committed
pub mod Safe
mod Tests
use mini_lakehouse.Common.{
  ℕ, suc, ◌+◌, Bool, true, false, not, ◌&&◌, ◌||◌, Option, none, some, List, [], ◌∷◌, ◌++◌, map,
  ltb, ◌==◌, ◌!=◌, any, contains, find, keep_if, is_ordered_set, Result, err, ok, ◌>>=◌, ◌>>◌,
  raise_if, if◌then◌else◌,
}
use mini_lakehouse.Controls.{AccountSnapshot, CostPolicy, cost_contains}
use mini_lakehouse.Configuration.{ConfigurationError}
use mini_lakehouse.Execution.Order.{
  Digest, Symbol, Instant, Date, Outcome, ExecutionError, Action, same_action, is_entry,
  PaperOrderIntent, PaperOrderEvent, PaperOrderState, PaperFillEvidence,
}
use mini_lakehouse.Execution.Reducer.{is_terminal, reduce_paper_order}
use mini_lakehouse.Execution.Resources.{PaperResourceLedger}
use mini_lakehouse.Execution.Market.{PaperMarketSnapshot}
use mini_lakehouse.Execution.Requests.{PaperBlockReason, Digests}
use mini_lakehouse.Execution.Readiness.{ReadinessError, Identities}
use mini_lakehouse.Promotion.{PromotionGateReport}
use mini_lakehouse.Execution.Ledger.{
  Environment, initialize_paper_ledger, reserve_paper_entry, reserve_paper_exit, settle_paper_entry,
  settle_paper_exit,
}
use mini_lakehouse.Execution.Matching.{Adapter}

-- One constructor for each statement that raises.
pub data RuntimeError : Type 0 where
  execution : ExecutionError → RuntimeError
  configuration : ConfigurationError → RuntimeError
  readiness : ReadinessError → RuntimeError
  -- `PaperOrderBlocked`: no effective policy, or the planner's reasons.
  no_effective_policy : RuntimeError
  blocked_by : List PaperBlockReason → RuntimeError
  costs_period clock_rewound duplicate_intent already_planned orphan_event : RuntimeError
  liquidity_reused ledger_unreconciled quote_cursors no_order : RuntimeError
  no_lineage lineage_mismatch stale_resources unknown_parent unknown_intent : RuntimeError
  quote_date quote_regression : RuntimeError
  -- Raised by the repository.
  store_failed : RuntimeError

abbrev pub Runtime : Type 0 → Type 0
Runtime = Result RuntimeError

abbrev pub executed : {A : Type 0} → Outcome A → Runtime A
executed (ok x) = ok x
executed (err e) = err (execution e)

-- `Operation`
pub data Operation : Type 0 where
  submitted : PaperOrderIntent → Operation
  happened : PaperOrderEvent → Operation

abbrev pub at_of : Operation → Instant
at_of (submitted i) = i.created_at
at_of (happened e) = e.occurred_at

pub record PaperSession : Type 0 where
  pub account : AccountSnapshot
  pub costs : CostPolicy
  pub ledger : PaperResourceLedger
  pub revision : ℕ
  pub operations : List Operation
  pub markets : List PaperMarketSnapshot

-- What the code takes from `hashlib`, from the time zone database and from pydantic's `==`.
pub record Services : Type 0 where
  pub adapter : Adapter
  pub ledgers : Environment
  pub plans : Digests
  pub identities : Identities
  pub local_date : ℕ → Instant → Date
  pub same_ledger : PaperResourceLedger → PaperResourceLedger → Bool
  pub same_session : PaperSession → PaperSession → Bool
  pub same_market : PaperMarketSnapshot → PaperMarketSnapshot → Bool
  pub same_intent : PaperOrderIntent → PaperOrderIntent → Bool
  pub same_account : AccountSnapshot → AccountSnapshot → Bool
  pub same_costs : CostPolicy → CostPolicy → Bool
  pub same_promotion : PromotionGateReport → PromotionGateReport → Bool

-- `session.intents`
abbrev pub intents_of : List Operation → List PaperOrderIntent
intents_of [] = []
intents_of (submitted i ∷ xs) = i ∷ intents_of xs
intents_of (happened e ∷ xs) = intents_of xs

-- `session.events(intent)`, of the intent's digest.
abbrev pub events_for : Digest → List Operation → List PaperOrderEvent
events_for d [] = []
events_for d (submitted i ∷ xs) = events_for d xs
events_for d (happened e ∷ xs) =
    let rest = events_for d xs in if e.intent_sha256 == d then e ∷ rest else rest

-- An entry of the dictionaries `intents` and `events`, which have the same keys.
pub record Order : Type 0 where
  pub digest : Digest
  pub intent : PaperOrderIntent
  pub history : List PaperOrderEvent

-- An entry of `liquidity`.
pub record Liquidity : Type 0 where
  pub stream_session_id : ℕ
  pub receive_sequence : ℕ
  pub symbol : Symbol
  pub action : Action
  pub used : ℕ
  pub capacity : ℕ
  pub source_sha256 : Digest

-- The variables of the loop in `reconcile`.
pub record Replayed : Type 0 where
  pub ledger : PaperResourceLedger
  pub orders : List Order
  pub entries : List Digest
  pub liquidity : List Liquidity
  pub last_operation_at : Instant

abbrev is_on : PaperFillEvidence → Liquidity → Bool
is_on f l =
    l.stream_session_id == f.stream_session_id
    && l.receive_sequence == f.receive_sequence
    && l.symbol == f.symbol
    && same_action l.action f.action

abbrev fresh_liquidity : PaperFillEvidence → Liquidity
fresh_liquidity f = record {
  stream_session_id = f.stream_session_id;
  receive_sequence = f.receive_sequence;
  symbol = f.symbol;
  action = f.action;
  used = 0;
  capacity = f.available_quantity;
  source_sha256 = f.source_sha256;
}

-- `liquidity.get(key, (0, available, source))`
abbrev liquidity_for : PaperFillEvidence → Option Liquidity → Liquidity
liquidity_for f none = fresh_liquidity f
liquidity_for f (some l) = l

-- The liquidity after an event, with or without a fill.
abbrev pub consumed : Option PaperFillEvidence → List Liquidity → Runtime (List Liquidity)
consumed none ls = ok ls
consumed (some f) ls =
    let l = liquidity_for f (find (is_on f) ls) in
    raise_if (l.source_sha256 != f.source_sha256 || ltb l.capacity (l.used + f.filled_quantity))
      liquidity_reused
    >> ok (record l { used = l.used + f.filled_quantity } ∷ keep_if (λ x. not (is_on f x)) ls)

-- `intents.get(digest)`
abbrev pub order_of : Digest → List Order → Option Order
order_of d orders = find (λ o. o.digest == d) orders

-- `history.append(operation)`, where the dictionary has it.
abbrev pub extended : PaperOrderEvent → Order → Order
extended e o = if e.intent_sha256 == o.digest then record o { history = o.history ++ e ∷ [] } else o

module _ (services : Services) where
  open services use {adapter, ledgers}

  abbrev pub digest_of : PaperOrderIntent → Digest
  digest_of i = adapter.hashing.intent_digest i

  abbrev pub reduced : PaperOrderIntent → List PaperOrderEvent → Runtime PaperOrderState
  reduced i events = executed (reduce_paper_order adapter.hashing i events)

  abbrev pub reserved : PaperResourceLedger → PaperOrderIntent → Runtime PaperResourceLedger
  reserved l i =
      executed
        (if is_entry i.leg then reserve_paper_entry ledgers l i else reserve_paper_exit ledgers l i)

  -- A terminal order is settled.
  abbrev pub settled :
      CostPolicy
      → PaperResourceLedger
      → PaperOrderIntent
      → PaperOrderState
      → Runtime PaperResourceLedger
  settled costs l i state =
      if is_terminal state.status
      then executed (
          if is_entry i.leg
          then settle_paper_entry ledgers l i state costs
          else settle_paper_exit ledgers l i state costs)
      else ok l

  abbrev pub checked_intent : Replayed → PaperOrderIntent → Runtime Unit
  checked_intent r i =
      raise_if (any (λ o. o.digest == digest_of i) r.orders) duplicate_intent
      >> raise_if (is_entry i.leg && contains i.arbitration_sha256 r.entries) already_planned

  abbrev pub replay_intent : Replayed → PaperOrderIntent → Runtime Replayed
  replay_intent r i = do
    checked_intent r i
    ledger ← reserved r.ledger i
    ok (record r {
      ledger = ledger;
      orders = r.orders ++ record { digest = digest_of i; intent = i; history = [] } ∷ [];
      entries = if is_entry i.leg then i.arbitration_sha256 ∷ r.entries else r.entries;
      last_operation_at = i.created_at;
    })

  abbrev pub replay_on : CostPolicy → Replayed → PaperOrderEvent → Option Order → Runtime Replayed
  replay_on costs r e none = err orphan_event
  replay_on costs r e (some o) = do
    state ← reduced o.intent (o.history ++ e ∷ [])
    liquidity ← consumed e.fill_evidence r.liquidity
    ledger ← settled costs r.ledger o.intent state
    ok (record r {
      ledger = ledger;
      orders = map (extended e) r.orders;
      liquidity = liquidity;
      last_operation_at = e.occurred_at;
    })

  abbrev pub replay_operation : CostPolicy → Replayed → Operation → Runtime Replayed
  replay_operation costs r (submitted i) = replay_intent r i
  replay_operation costs r (happened e) = replay_on costs r e (order_of e.intent_sha256 r.orders)

  -- The body of the loop in `reconcile`.
  unfoldable pub replay_step : CostPolicy → Replayed → Operation → Runtime Replayed
  replay_step costs r x =
      raise_if (ltb (at_of x) r.last_operation_at) clock_rewound >> replay_operation costs r x

  unfoldable pub replay : CostPolicy → Replayed → List Operation → Runtime Replayed
  replay costs r [] = ok r
  replay costs r (x ∷ xs) = replay_step costs r x >>= λ q. replay costs q xs

  abbrev pub before_operations : AccountSnapshot → PaperResourceLedger → Replayed
  before_operations account ledger = record {
    ledger = ledger;
    orders = [];
    entries = [];
    liquidity = [];
    last_operation_at = account.as_of;
  }

  -- `reconcile`
  unfoldable pub reconcile : PaperSession → Runtime Unit
  reconcile s = do
    raise_if (not (cost_contains s.costs s.ledger.trade_date)) costs_period
    ledger ← executed (initialize_paper_ledger ledgers s.account s.ledger.trade_date)
    r ← replay s.costs (before_operations s.account ledger) s.operations
    raise_if (not (services.same_ledger r.ledger s.ledger)) ledger_unreconciled
    raise_if (not (is_ordered_set (map (λ m. m.symbol) s.markets))) quote_cursors

  abbrev pub appended : PaperSession → Operation → PaperResourceLedger → PaperSession
  appended s x ledger = record s { ledger = ledger; operations = s.operations ++ x ∷ [] }

  abbrev pub append_on :
      PaperSession → PaperOrderEvent → Option PaperOrderIntent → Runtime PaperSession
  append_on s e none = err no_order
  append_on s e (some i) = do
    state ← reduced i (events_for (digest_of i) s.operations ++ e ∷ [])
    ledger ← settled s.costs s.ledger i state
    ok (appended s (happened e) ledger)

  -- `_append`; the search that finds no intent raises `StopIteration`.
  unfoldable pub append : PaperSession → Operation → Runtime PaperSession
  append s (submitted i) = do ledger ← reserved s.ledger i; ok (appended s (submitted i) ledger)
  append s (happened e) =
      append_on s e (find (λ i. digest_of i == e.intent_sha256) (intents_of s.operations))

  -- `PaperSession.model_validate`; the parts were validated when they were built.
  abbrev pub revised : PaperSession → PaperSession → Runtime PaperSession
  revised previous current =
      let next = record current { revision = previous.revision + 1 } in reconcile next >> ok next

  -- `_finish`
  unfoldable pub finish : PaperSession → PaperSession → Runtime PaperSession
  finish previous current =
      if services.same_session current previous then ok previous else revised previous current

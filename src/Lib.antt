-- ===== src/Lib.antt =====
-- The trading core of Mini Lakehouse, a Python data platform: the package
-- t0-trading/src/t0_trading, which selects intraday cycles (buy first, then sell shares that were
-- settled before), plans them as paper orders, keeps their cash and shares, and replays them.
--
-- The parts, in the order in which a candidate passes through them. Paths are under
-- t0-trading/src/t0_trading.
--   Configuration  configuration.py: effective-dated versions and their resolution by date;
--                Configuration.Market and Policies have the records with their validators,
--                Configuration.Versions `TradingConfiguration`.
--   Market       market/. Market.Session is session.py; Market.State is state.py, with one
--                symbol's state, bars and events in Market.State.Symbol and `health` in
--                Market.State.Health. `decode_event` of events.py parses a provider's message
--                with its SDK and is a parameter.
--   Candidate    strategy/baselines.py: the scored candidates and their validator. The scoring
--                itself is not modelled.
--   Arbitration  arbitration/model.py and engine.py, with the policy of configuration.py.
--                Arbitration.Engine has the arbitrator's attributes and the turns of its loops,
--                Arbitration.Decide `decide` and `arbitrate_candidates`. A dict that is written in
--                a loop is the list of its writes, in which the last write of a key wins.
--   Promotion    promotion/model.py: the gate report that paper execution reads, and in
--                Promotion.WalkForward the walk-forward report of engine.py over the sessions'
--                records. Its loop over the folds takes as fuel the number of the dates, of
--                which each turn uses at least one. Promotion.Gate is `evaluate_promotion_gate`
--                with `_target_result`.
--   Controls     controls/model.py: costs, advances, risk limits and account snapshots.
--   Execution    execution/. Execution.Order, Resources, Market and Requests are the records of
--                model.py with their validators; Planner is `plan_paper_order` and
--                `plan_paper_exit` of engine.py, Reducer its `reduce_paper_order`, whose loop
--                variables are `Progress`; Ledger is ledger.py; Matching is matching.py. Readiness
--                has the admission of readiness.py with the lineage of promotion/evidence.py.
--                Runtime is runtime.py: the session with its replay and `_append`,
--                Runtime.Transitions its submissions, clock, cancels and quotes, and
--                Runtime.Boundary `PaperRuntime`, over a repository that is a parameter: its
--                commit returns the store that it leaves also when it raises, since a commit whose
--                response is lost has persisted the session (postgres.py).
--   Outcomes     outcomes/model.py: the labels with the prices at entry and horizon.
--   Simulation   simulation/. Simulation has the requests of model.py, Simulation.Cycle what the
--                loop of `simulate_cycles` computes with, its variables as `State` among it,
--                Simulation.Engine the loop, and Simulation.Report the rest.
--   Numeric      numeric.py, over Common.Decimal.
--   Common       tests, lists, results, sets, stable sorting, integers and decimals that the parts
--                share. Samples has records for their runs.
--
-- How the code is modelled. Code that raises returns `Result`, whose error names the statement that
-- raised; a pydantic record that is built runs its validator. Instants are microseconds of UTC and
-- dates ordinals, so that the tests for aware datetimes have no counterpart. Strings that the code
-- only compares are numbers. `decimal.Decimal` is Common.Decimal: 28 digits and half-even rounding,
-- without infinities, NaN, limits on exponents and the InvalidOperation of a `quantize` to more than
-- 28 digits. A budget of shares is a number, so that the test of `match_quote` for a negative one
-- has no counterpart. Parameters stand for what lies outside the repository: the digests, which end
-- in hashlib, the date of an instant in the market's time zone and the names of zones, which come
-- from the time zone database, pydantic's `==` of records, and the store of the paper sessions.
--
-- Every function is structural recursion, but for the folds (above) and the digits of a decimal: `excess`, `shift` and
-- `strip` of Common.Decimal take fuel, the number itself or the exponent that they lower, which is
-- no less than the digits that they can remove.
--
-- Not modelled: the capture of market data and the decoding of its messages, features and context,
-- the outcome engine, the arbitration journal, the loading of readiness,
-- notifications, the databases and the command line, and every other capability of the repository (lakehouse, orchestration,
-- analytics, OCR, infrastructure), which call external engines.
pub mod Common
pub mod Numeric
pub mod Controls
pub mod Configuration
pub mod Market
pub mod Candidate
pub mod Arbitration
pub mod Promotion
pub mod Execution
pub mod Outcomes
pub mod Simulation
pub mod Samples

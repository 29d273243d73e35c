-- ===== src/Execution/Runtime/Boundary.antt =====
-- `PaperRuntime` of t0-trading/src/t0_trading/execution/runtime.py: a command loads a session, runs a
-- transition and commits its state, and what is raised becomes a result. The repository is a
-- parameter; a commit that raises returns the store that it leaves too, since one whose response is
-- lost has persisted the session.
use mini_lakehouse.Common.{
  Text, Bool, true, false, Option, none, some, List, [], ◌∷◌, map, if◌then◌else◌, ok, err,
}
use mini_lakehouse.Configuration.Versions.{TradingConfiguration}
use mini_lakehouse.Execution.Order.{Digest, Instant, PaperOrderIntent}
use mini_lakehouse.Execution.Market.{PaperMarketSnapshot}
use mini_lakehouse.Execution.Requests.{PaperBlockReason, PaperExecutionRequest}
use mini_lakehouse.Execution.Readiness.{PaperReadiness}
use mini_lakehouse.Execution.Runtime.{
  Services, PaperSession, Runtime, RuntimeError, no_effective_policy, blocked_by,
}
use mini_lakehouse.Execution.Runtime.Transitions.{
  submit_entry, submit_exit, advance_clock, cancel_order, process_quote,
}

pub data Status : Type 0 where
  committed no_change blocked observe_only failed : Status

abbrev pub is_committed : Status → Bool
is_committed committed = true
is_committed _ = false

-- The texts of `reason`; the name of an error's type stands for the error.
pub data Reason : Type 0 where
  paper_only idempotent planner_blocked paper_disabled : Reason
  raised : RuntimeError → Reason
  -- The readiness's reason.
  unready : PaperReadiness → Reason

pub data BlockReason : Type 0 where
  no_policy : BlockReason
  planner : PaperBlockReason → BlockReason

pub record PaperRuntimeResult : Type 0 where
  pub status : Status
  pub reason : Reason
  pub block_reasons : List BlockReason
  pub state_sha256 : Option Digest

-- `PaperRepository`, over the store that it reads and writes.
pub record Repository (Store : Type 0) : Type 0 where
  pub load : Store → Runtime PaperSession
  pub commit : Store → PaperSession → PaperSession → Store × Option RuntimeError

abbrev observed : Reason → PaperRuntimeResult
observed reason = record {
  status = observe_only;
  reason = reason;
  block_reasons = [];
  state_sha256 = none;
}

-- `error.reasons` of a `PaperOrderBlocked`.
abbrev blocks_of : RuntimeError → Option (List BlockReason)
blocks_of no_effective_policy = some (no_policy ∷ [])
blocks_of (blocked_by reasons) = some (map planner reasons)
blocks_of e = none

abbrev pub failure_as : RuntimeError → Option (List BlockReason) → PaperRuntimeResult
failure_as e (some reasons) = record {
  status = blocked;
  reason = planner_blocked;
  block_reasons = reasons;
  state_sha256 = none;
}
failure_as e none = record {
  status = failed;
  reason = raised e;
  block_reasons = [];
  state_sha256 = none;
}

-- The two handlers.
abbrev pub failure : RuntimeError → PaperRuntimeResult
failure e = failure_as e (blocks_of e)

-- A command of the consumer.
pub data Command : Type 0 where
  enter : PaperExecutionRequest → PaperReadiness → Command
  quote : PaperMarketSnapshot → Command
  clock : Instant → Command
  leave : PaperOrderIntent → PaperMarketSnapshot → Command
  cancel : PaperOrderIntent → Instant → Text → Command

module _ {Store : Type 0} (services : Services) (session_digest : PaperSession → Digest)
    (repository : Repository Store) where
  open repository use {load, commit}

  abbrev pub commit_result : PaperSession → Store × Option RuntimeError → Store × PaperRuntimeResult
  commit_result state (next, some e) = (next, failure e)
  commit_result state (next, none) = (
    next,
    record {
      status = committed;
      reason = paper_only;
      block_reasons = [];
      state_sha256 = some (session_digest state);
    },
  )

  abbrev pub acknowledge : Store → PaperSession → Runtime PaperSession → Store × PaperRuntimeResult
  acknowledge store previous (err e) = (store, failure e)
  acknowledge store previous (ok state) =
      if services.same_session state previous
      then (
        store,
        record {
          status = no_change;
          reason = idempotent;
          block_reasons = [];
          state_sha256 = some (session_digest state);
        },
      )
      else commit_result state (commit store previous state)

  abbrev pub run_loaded :
      (PaperSession → Runtime PaperSession)
      → Store
      → Runtime PaperSession
      → Store × PaperRuntimeResult
  run_loaded transition store (err e) = (store, failure e)
  run_loaded transition store (ok previous) = acknowledge store previous (transition previous)

  -- `_run`
  unfoldable pub run : (PaperSession → Runtime PaperSession) → Store → Store × PaperRuntimeResult
  run transition store = run_loaded transition store (load store)

  module _ (c : TradingConfiguration) (is_enabled : Bool) where
    abbrev pub unless_disabled : Store → Store × PaperRuntimeResult → Store × PaperRuntimeResult
    unless_disabled store result = if is_enabled then result else (store, observed paper_disabled)

    -- `entry`, `quote`, `clock`, `exit` and `cancel`
    unfoldable pub handle : Command → Store → Store × PaperRuntimeResult
    handle (enter q r) store = unless_disabled store (
        if r.is_paper
        then run (submit_entry services c q r) store
        else (store, observed (unready r)))
    handle (quote m) store = unless_disabled store (run (process_quote services c m) store)
    handle (clock at) store = run (advance_clock services at) store
    handle (leave i m) store = unless_disabled store (run (submit_exit services c i m) store)
    handle (cancel i at reason) store = run (cancel_order services i at reason) store

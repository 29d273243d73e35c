-- ===== src/Execution/Runtime/Safe.antt =====
-- What the commands of t0-trading/src/t0_trading/execution/runtime.py leave in the repository.
use mini_lakehouse.Common.{
  ◌+◌, ◌≡◌, refl, subst, inl, inr, ◌⊎◌, Bool, true, false, Option, none, some, List, arith,
  Bool-cases, if◌then◌else◌, ok, err,
}
use mini_lakehouse.Configuration.Versions.{TradingConfiguration}
use mini_lakehouse.Execution.Order.{Digest}
use mini_lakehouse.Execution.Runtime.{Services, PaperSession, Runtime, reconcile, RuntimeError}
use mini_lakehouse.Execution.Runtime.Transitions.{
  submit_entry, submit_exit, advance_clock, cancel_order, process_quote,
}
use mini_lakehouse.Execution.Runtime.Boundary.{
  Repository, Command, enter, quote, clock, leave, cancel, is_committed, PaperRuntimeResult,
  BlockReason, failure, failure_as, run, run_loaded, acknowledge, commit_result, handle,
  unless_disabled,
}
use mini_lakehouse.Execution.Runtime.Committed.{
  Advances, submit_entry-Advances, submit_exit-Advances, process_quote-Advances,
  advance_clock-Advances, cancel_order-Advances,
}

abbrev pub raised_nothing : Option RuntimeError → Bool
raised_nothing none = true
raised_nothing (some _) = false

module _ (services : Services) where
  module _ {Store : Type 0} (session_digest : PaperSession → Digest) (repository : Repository Store)
      (same_session_refl : (s : PaperSession) → services.same_session s s ≡ true) where
    open repository use {load, commit}

    -- The store is what a commit left that was called over the session that the command loaded,
    -- with a session of the next revision that reconciles with its operations, and the result
    -- reports a commit exactly when that commit raised nothing.
    pub record Attempted (store : Store) (result : Store × PaperRuntimeResult) : Type 0 where
      previous : PaperSession
      state : PaperSession
      loaded : load store ≡ ok previous
      left : result.0 ≡ (commit store previous state).0
      reported : is_committed (result.1.status) ≡ raised_nothing (commit store previous state).1
      reconciled : reconcile services state ≡ ok tt
      next_revision : state.revision ≡ previous.revision + 1

    abbrev pub Safe : Store → Store × PaperRuntimeResult → Type 0
    Safe store result =
        ((is_committed (result.1.status) ≡ false) × (result.0 ≡ store)) ⊎ Attempted store result

    same_session_total : (s : PaperSession) → services.same_session s s ≡ false → ⊥
    same_session_total s h = ground (arith, same_session_refl s)

    failure_as-Safe :
        (store : Store) (e : RuntimeError) (blocks : Option (List BlockReason))
        → Safe store (store, failure_as e blocks)
    failure_as-Safe store e none = inl (refl, refl)
    failure_as-Safe store e (some reasons) = inl (refl, refl)

    failure-Safe : (store : Store) (e : RuntimeError) → Safe store (store, failure e)
    failure-Safe store e = failure_as-Safe store e _

    failure_as-uncommitted :
        (e : RuntimeError) (blocks : Option (List BlockReason))
        → is_committed ((failure_as e blocks).status) ≡ false
    failure_as-uncommitted e none = refl
    failure_as-uncommitted e (some reasons) = refl

    commit_result-reported :
        (state : PaperSession) (found : Store × Option RuntimeError)
        → let result = commit_result services session_digest repository state found in
          (result.0 ≡ found.0) × (is_committed (result.1.status) ≡ raised_nothing found.1)
    commit_result-reported state (next, none) = (refl, refl)
    commit_result-reported state (next, some e) = (refl, failure_as-uncommitted e _)

    commit_result-Safe :
        (store : Store) (previous state : PaperSession)
        → load store ≡ ok previous
        → (reconcile services state ≡ ok tt) × (state.revision ≡ previous.revision + 1)
        → Safe store
            (commit_result services session_digest repository state (commit store previous state))
    commit_result-Safe store previous state loaded facts =
        let (left, reported) = commit_result-reported state (commit store previous state) in
        inr (record {
          previous = previous;
          state = state;
          loaded = loaded;
          left = left;
          reported = reported;
          reconciled = facts.0;
          next_revision = facts.1;
        })

    acknowledge-Safe :
        (store : Store) (previous : PaperSession) (found : Runtime PaperSession)
        → load store ≡ ok previous
        → ((state : PaperSession) → found ≡ ok state → Advances services previous state)
        → Safe store (acknowledge services session_digest repository store previous found)
    acknowledge-Safe store previous (err e) loaded advances = failure-Safe store e
    acknowledge-Safe store previous (ok state) loaded advances =
        elim (Bool-cases (services.same_session state previous)) [
          | inl same ↦ rw same (inl (refl, refl))
          | inr changed ↦ elim (advances state refl) [
            | inl kept ↦ absurd (
                same_session_total state
                  (subst (λ x. services.same_session state x ≡ false) kept changed))
            | inr facts ↦ rw changed (commit_result-Safe store previous state loaded facts)
          ]
        ]

    run_loaded-Safe :
        (transition : PaperSession → Runtime PaperSession)
        → ((s t : PaperSession) → transition s ≡ ok t → Advances services s t)
        → (store : Store) (found : Runtime PaperSession) → load store ≡ found
        → Safe store (run_loaded services session_digest repository transition store found)
    run_loaded-Safe transition advances store (err e) loaded = failure-Safe store e
    run_loaded-Safe transition advances store (ok s) loaded =
        acknowledge-Safe store s (transition s) loaded (λ t. advances s t)

    run-Safe :
        (transition : PaperSession → Runtime PaperSession)
        → ((s t : PaperSession) → transition s ≡ ok t → Advances services s t)
        → (store : Store) → Safe store (run services session_digest repository transition store)
    unfolding run
    run-Safe transition advances store = run_loaded-Safe transition advances store (load store) refl

    if-Safe :
        (store : Store) (test : Bool) (x y : Store × PaperRuntimeResult)
        → Safe store x
        → Safe store y
        → Safe store (if test then x else y)
    if-Safe store true x y h k = h
    if-Safe store false x y h k = k

    enabled-Safe :
        (c : TradingConfiguration) (is_enabled : Bool) (store : Store)
        (result : Store × PaperRuntimeResult)
        → Safe store result
        → Safe store (unless_disabled services session_digest repository c is_enabled store result)
    enabled-Safe c true store result h = h
    enabled-Safe c false store result h = inl (refl, refl)

    -- A command of the runtime leaves the store as it was and reports no commit, or it has called
    -- commit over the session that it loaded, with a session of the next revision that reconciles
    -- with its operations: then the store is as that commit left it, and the command reports that
    -- it committed exactly when the commit raised nothing. It is assumed that `==` of a session
    -- with itself holds.
    pub handle-Safe :
        (c : TradingConfiguration) (is_enabled : Bool) (command : Command) (store : Store)
        → Safe store (handle services session_digest repository c is_enabled command store)
    unfolding handle
    handle-Safe c is_enabled (enter q r) store = enabled-Safe c is_enabled store _ (
        if-Safe store r.is_paper _ _
          (run-Safe (submit_entry services c q r) (λ s t. submit_entry-Advances services c s t q r)
            store)
          (inl (refl, refl)))
    handle-Safe c is_enabled (quote m) store = enabled-Safe c is_enabled store _ (
        run-Safe (process_quote services c m) (λ s t. process_quote-Advances services c s t m)
          store)
    handle-Safe c is_enabled (clock at) store =
        run-Safe (advance_clock services at) (λ s t. advance_clock-Advances services c s t at) store
    handle-Safe c is_enabled (leave i m) store = enabled-Safe c is_enabled store _ (
        run-Safe (submit_exit services c i m) (λ s t. submit_exit-Advances services c s t i m)
          store)
    handle-Safe c is_enabled (cancel i at reason) store =
        run-Safe (cancel_order services i at reason)
          (λ s t. cancel_order-Advances services c s t i at reason) store

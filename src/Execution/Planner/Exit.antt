-- ===== src/Execution/Planner/Exit.antt =====
-- When `plan_paper_exit` of execution/engine.py returns an order.
use mini_lakehouse.Common.{
  ℕ, ◌-◌, ◌*◌, ◌≤◌, ◌≡◌, ◌↔◌, true, some, [], arith, contains, ok, >>=-eq-ok, >>-eq-ok, raise_if,
  ltb→ge, ==→ne, ◌≢◌, find, Option, none, ok_injective, ap,
}
use mini_lakehouse.Common.Decimal.{Decimal}
use mini_lakehouse.Execution.Order.{policy_mismatch_exit}
use mini_lakehouse.Execution.Market.{within}
use mini_lakehouse.Execution.Reducer.{is_terminal}
use mini_lakehouse.Execution.Resources.{PaperReservation}
use mini_lakehouse.Configuration.Policies.{PaperExecutionVersion, ContextVersion}
use mini_lakehouse.Execution.Requests.{PaperExitRequest, PaperOrderPlan, Digests, built_intent}
use mini_lakehouse.Execution.Planner.{
  later_by, exit_limit, planned_unless, exit_reasons, exit_intent_of, is_open_cycle_of,
  given_reservation, plan_paper_exit, mismatches_entry_policy,
}
use mini_lakehouse.Execution.Planner.Entry.{
  noted-eq-none, not-false, planned_unless-ready, planned_unless-blocked,
}

-- What the entry's state, the clock and the market allow: a sale of `quantity` shares at `limit`.
pub record ExitAllowed (q : PaperExitRequest) (policy : PaperExecutionVersion)
    (context : ContextVersion) (quantity : ℕ) (limit : Decimal) : Type 0 where
  pub ended : is_terminal q.entry_state.status ≡ true
  pub positive : quantity ≢ 0
  pub due :
      later_by q.entry_intent.decision_at q.entry_intent.horizon_seconds ≤ q.market.observed_at
  pub tradable : contains q.market.market_status context.tradable_market_statuses ≡ true
  pub fresh :
      q.market.observed_at - q.market.quote_received_at ≤ policy.maximum_quote_age_seconds * 1000000
  pub displayed : quantity ≤ q.market.best_bid_quantity
  pub in_band : within q.market.floor_price limit q.market.ceiling_price ≡ true

module _ (q : PaperExitRequest) (policy : PaperExecutionVersion) (context : ContextVersion)
    (quantity : ℕ) (limit : Decimal) where
  exit_reasons-ExitAllowed :
      exit_reasons q policy context quantity limit ≡ []
      → ExitAllowed q policy context quantity limit
  unfolding exit_reasons
  exit_reasons-ExitAllowed h =
      let (t0, h0) = noted-eq-none _ _ _ h in
      let (t1, h1) = noted-eq-none _ _ _ h0 in
      let (t2, h2) = noted-eq-none _ _ _ h1 in
      let (t3, h3) = noted-eq-none _ _ _ h2 in
      let (t4, h4) = noted-eq-none _ _ _ h3 in
      let (t5, h5) = noted-eq-none _ _ _ h4 in
      let (t6, h6) = noted-eq-none _ _ _ h5 in
      record {
        ended = not-false _ t0;
        positive = ==→ne _ _ t1;
        due = ltb→ge _ _ t2;
        tradable = not-false _ t3;
        fresh = ltb→ge _ _ t4;
        displayed = ltb→ge _ _ t5;
        in_band = not-false _ t6;
      }

  ExitAllowed-exit_reasons :
      ExitAllowed q policy context quantity limit
      → exit_reasons q policy context quantity limit ≡ []
  unfolding exit_reasons
  ExitAllowed-exit_reasons a =
      let positive = a.positive in
      let due = a.due in
      let fresh = a.fresh in
      let displayed = a.displayed in rw (a.ended, a.tradable, a.in_band) (ground arith)

module _ (env : Digests) (q : PaperExitRequest) (policy : PaperExecutionVersion)
    (context : ContextVersion) where
  -- An exit plan that is returned is for an open reservation of the entry, and it is READY
  -- exactly when the entry is terminal, some shares are reserved, the horizon has passed, the
  -- market is open for trading, the quote is fresh and large enough, and the limit price that it
  -- computes is in the daily band.
  pub plan_paper_exit-is_ready_iff :
      (p : PaperOrderPlan)
      → plan_paper_exit env q policy context ≡ ok p
      → (r : PaperReservation) × (find
            (is_open_cycle_of env q.entry_intent)
            q.resources.reservations
          ≡ some r)
        × ((p.is_ready ≡ true)
            ↔ ExitAllowed q policy context r.reserved_exit_quantity (exit_limit q.market policy))
  unfolding plan_paper_exit
  plan_paper_exit-is_ready_iff p h =
      let cycle = find (is_open_cycle_of env q.entry_intent) q.resources.reservations in
      let (r, given, h1) = >>=-eq-ok (given_reservation cycle) _ h in
      let (agrees, planned) =
        >>-eq-ok
          (raise_if (mismatches_entry_policy env q.entry_intent policy context)
            policy_mismatch_exit)
          (planned_unless q.entry_intent.arbitration_sha256
            (exit_reasons q policy context r.reserved_exit_quantity (exit_limit q.market policy))
            (built_intent
              (exit_intent_of env q policy r.reserved_exit_quantity (exit_limit q.market policy))))
          h1 in
      let limit = exit_limit q.market policy in
      (
        r,
        given_reservation-eq-ok cycle r given,
        (
          λ ready.
              exit_reasons-ExitAllowed q policy context r.reserved_exit_quantity limit
                (planned_unless-ready _ _ _ p planned ready).0,
          λ a.
              planned_unless-blocked _ _ _ p planned
                (ExitAllowed-exit_reasons q policy context r.reserved_exit_quantity limit a),
        ),
      )
    where
      given_reservation-eq-ok :
          (o : Option PaperReservation) (r : PaperReservation)
          → given_reservation o ≡ ok r
          → o ≡ some r
      given_reservation-eq-ok none r h = cc
      given_reservation-eq-ok (some x) r h = ap some (ok_injective h)

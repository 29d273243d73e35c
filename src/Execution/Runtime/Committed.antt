-- ===== src/Execution/Runtime/Committed.antt =====
-- What the commands of t0-trading/src/t0_trading/execution/runtime.py may commit.
use mini_lakehouse.Common.{
  ◌+◌, ◌≡◌, sym, ap, subst, inl, inr, ◌⊎◌, Bool, true, false, not, ◌&&◌, Option, none, some, List,
  [], Text, ◌==◌, ◌!=◌, any, find, Bool-cases, if◌then◌else◌, ok, ◌>>=◌, >>=-eq-ok, >>-eq-ok,
  raise_if, ok_injective,
}
use mini_lakehouse.Common.Sort.{sorted}
use mini_lakehouse.Configuration.Policies.{PaperExecutionVersion, PromotionGateVersion}
use mini_lakehouse.Configuration.Versions.{
  TradingConfiguration, resolve, resolve_context, resolve_paper_execution, resolve_promotion_gate,
  resolve_candidate_arbitration,
}
use mini_lakehouse.Arbitration.{ArbitrationPolicy}
use mini_lakehouse.Execution.Order.{Instant, PaperOrderIntent, accepted, cancelled}
use mini_lakehouse.Execution.Reducer.{is_terminal}
use mini_lakehouse.Execution.Resources.{is_open}
use mini_lakehouse.Execution.Market.{PaperMarketSnapshot}
use mini_lakehouse.Execution.Requests.{
  PaperBlockReason, PaperExecutionRequest, PaperExitRequest, validate_exit_request,
}
use mini_lakehouse.Execution.Planner.{plan_paper_order, plan_paper_exit}
use mini_lakehouse.Execution.Readiness.{PaperReadiness, ResearchLineage, resolve_research_lineage}
use mini_lakehouse.Execution.Runtime.{
  Services, PaperSession, submitted, happened, Runtime, executed, intents_of, events_for, digest_of,
  reduced, append, finish, reconcile, quote_date, unknown_parent, unknown_intent, lineage_mismatch,
  stale_resources,
}
use mini_lakehouse.Execution.Runtime.Transitions.{
  configured, readied, lifecycle, submit, submit_plan, submit_admitted, submit_with, plan_entry,
  plan_exit, submit_entry, submit_exit, is_planned, mismatches_early, mismatches_late, is_known,
  expire_all, advance_clock, cancel_order, match_all, quote_under, quote_after, process_quote,
  budgets_for, by_priority, markets_with, is_repeated, check_cursor,
}

module _ (services : Services) where
  -- A session stays as it is, or the next one has the next revision and reconciles.
  abbrev pub Advances : PaperSession → PaperSession → Type 0
  Advances s t = (s ≡ t) ⊎ ((reconcile services t ≡ ok tt) × (t.revision ≡ s.revision + 1))

  finish-Advances : (s t u : PaperSession) → finish services s t ≡ ok u → Advances s u
  unfolding finish
  finish-Advances s t u h = elim (Bool-cases (services.same_session t s)) [
    | inl same ↦ inl (ok_injective (rw same at h))
    | inr other ↦
        let next = record t { revision = s.revision + 1 } in
        let (checked, h1) = >>-eq-ok (reconcile services next) _ (rw other at h) in
        inr (
          subst (λ x. reconcile services x ≡ ok tt) (ok_injective h1) checked,
          ap (λ x. x.revision) (sym (ok_injective h1)),
        )
  ]

  submit-Advances :
      (s t : PaperSession) (i : PaperOrderIntent) → submit services s i ≡ ok t → Advances s t
  submit-Advances s t i h =
      let (a, _, h1) = >>=-eq-ok (append services s (submitted i)) _ h in
      let (e, _, h2) = >>=-eq-ok (lifecycle services i [] accepted i.created_at none) _ h1 in
      let (b, _, h3) = >>=-eq-ok (append services a (happened e)) _ h2 in finish-Advances s b t h3

  submit_plan-Advances :
      (s t : PaperSession) (reasons : List PaperBlockReason) (i : Option PaperOrderIntent)
      → submit_plan services s reasons i ≡ ok t
      → Advances s t
  submit_plan-Advances s t reasons none h = cc
  submit_plan-Advances s t reasons (some i) h = submit-Advances s t i h

  -- A step of a chain that only reads.
  read :
      {A : Type 0} (s t : PaperSession) (first : Runtime A) (rest : A → Runtime PaperSession)
      → ((x : A) → rest x ≡ ok t → Advances s t)
      → (first >>= rest) ≡ ok t
      → Advances s t
  read s t first rest then_ h = let (x, _, h1) = >>=-eq-ok first rest h in then_ x h1

  -- A branch that returns the session as it is.
  unless :
      (s t : PaperSession) (test : Bool) (rest : Runtime PaperSession)
      → (rest ≡ ok t → Advances s t)
      → (if test then ok s else rest) ≡ ok t
      → Advances s t
  unless s t true rest then_ h = inl (ok_injective h)
  unless s t false rest then_ h = then_ h

  module _ (c : TradingConfiguration) (s t : PaperSession) where
    plan_entry-Advances :
        (q : PaperExecutionRequest) (policy : Option PaperExecutionVersion)
        (gate : Option PromotionGateVersion) (arbitration : Option ArbitrationPolicy)
        → plan_entry services c s q policy gate arbitration ≡ ok t
        → Advances s t
    plan_entry-Advances q none gate arbitration h = cc
    plan_entry-Advances q (some policy) none arbitration h = cc
    plan_entry-Advances q (some policy) (some gate) none h = cc
    plan_entry-Advances q (some policy) (some gate) (some arbitration) h =
        read s t (configured (resolve_context c s.ledger.trade_date)) _
          (λ context.
            read s t (executed (plan_paper_order services.plans q policy arbitration context gate))
              _ (λ plan. submit_plan-Advances s t plan.reasons plan.intent))
          h

    submit_admitted-Advances :
        (q : PaperExecutionRequest) → submit_admitted services c s q ≡ ok t → Advances s t
    submit_admitted-Advances q h =
        unless s t (is_planned services s q) _
          (read s t (raise_if (not (services.same_ledger q.resources s.ledger)) stale_resources) _
            (λ _. read s t (configured (resolve_paper_execution c s.ledger.trade_date)) _ (λ policy.
              read s t (configured (resolve_promotion_gate c s.ledger.trade_date)) _ (λ gate.
                read s t (configured (resolve_candidate_arbitration c s.ledger.trade_date)) _
                  (λ arbitration. plan_entry-Advances q policy gate arbitration)))))
          h

    submit_with-Advances :
        (q : PaperExecutionRequest) (r : PaperReadiness) (lineage : Option ResearchLineage)
        → submit_with services c s q r lineage ≡ ok t
        → Advances s t
    submit_with-Advances q r none h = cc
    submit_with-Advances q r (some lineage) h =
        read s t (raise_if (mismatches_early services s q r) lineage_mismatch) _
          (λ _.
            read s t
              (readied (resolve_research_lineage services.identities c s.ledger.trade_date s.costs))
              _
              (λ active.
                read s t (raise_if (mismatches_late services q lineage active) lineage_mismatch) _
                  (λ _. submit_admitted-Advances q)))
          h

    pub submit_entry-Advances :
        (q : PaperExecutionRequest) (r : PaperReadiness)
        → submit_entry services c q r s ≡ ok t
        → Advances s t
    unfolding submit_entry
    submit_entry-Advances q r h =
        unless s t (not r.is_paper) _ (submit_with-Advances q r r.research_lineage) h

    plan_exit-Advances :
        (i : PaperOrderIntent) (m : PaperMarketSnapshot) (policy : Option PaperExecutionVersion)
        → plan_exit services c i m s policy ≡ ok t
        → Advances s t
    plan_exit-Advances i m none h = cc
    plan_exit-Advances i m (some policy) h =
        read s t (reduced services i (events_for (digest_of services i) s.operations)) _
          (λ state.
            let request : PaperExitRequest = record {
              entry_intent = i;
              entry_state = state;
              market = m;
              resources = s.ledger;
            } in
            read s t (executed (validate_exit_request services.plans request)) _ (λ _.
              read s t (configured (resolve_context c i.trade_date)) _ (λ context.
                read s t (executed (plan_paper_exit services.plans request policy context)) _
                  (λ plan. submit_plan-Advances s t plan.reasons plan.intent))))
          h

    pub submit_exit-Advances :
        (i : PaperOrderIntent) (m : PaperMarketSnapshot)
        → submit_exit services c i m s ≡ ok t
        → Advances s t
    unfolding submit_exit
    submit_exit-Advances i m h =
        let (_, h1) = >>-eq-ok (raise_if (not (is_known services i s)) unknown_parent) _ h in
        elim (Bool-cases (
          any (λ r. r.entry_intent_sha256 == digest_of services i && is_open r.status)
            s.ledger.reservations)) [
              | inl exposed ↦
                  read s t (configured (resolve_paper_execution c i.trade_date)) _
                    (plan_exit-Advances i m) (rw exposed at h1)
              | inr closed ↦ inl (ok_injective (rw closed at h1))
            ]

    quote_under-Advances :
        (m : PaperMarketSnapshot) (previous : Option PaperMarketSnapshot)
        (policy : Option PaperExecutionVersion)
        → quote_under services c m previous s policy ≡ ok t
        → Advances s t
    quote_under-Advances m previous none h = inl (ok_injective h)
    quote_under-Advances m previous (some policy) h =
        let orders = sorted (by_priority (digest_of services)) (intents_of s.operations) in
        read s t (configured (resolve_context c s.ledger.trade_date)) _
          (λ context.
            read s t (match_all services c m policy context (s, budgets_for previous m) orders) _
              (λ now.
                finish-Advances s (record now.0 { markets = markets_with m (now.0.markets) }) t))
          h

    quote_after-Advances :
        (m : PaperMarketSnapshot) (previous : Option PaperMarketSnapshot)
        → quote_after services c m s previous ≡ ok t
        → Advances s t
    quote_after-Advances m previous h =
        unless s t (is_repeated services c m previous) _
          (read s t (check_cursor previous m) _ (λ _.
            read s t (configured (resolve_paper_execution c s.ledger.trade_date)) _
              (quote_under-Advances m previous)))
          h

    pub process_quote-Advances :
        (m : PaperMarketSnapshot) → process_quote services c m s ≡ ok t → Advances s t
    unfolding process_quote
    process_quote-Advances m h =
        read s t (configured (resolve c s.ledger.trade_date)) _
          (λ trading.
            read s t
              (raise_if
                (services.local_date trading.market.timezone m.observed_at != s.ledger.trade_date)
                quote_date)
              _ (λ _. quote_after-Advances m (find (λ x. x.symbol == m.symbol) s.markets)))
          h

    pub advance_clock-Advances : (at : Instant) → advance_clock services at s ≡ ok t → Advances s t
    unfolding advance_clock
    advance_clock-Advances at h =
        read s t (expire_all services at s (intents_of s.operations)) _
          (λ result. finish-Advances s result t) h

    pub cancel_order-Advances :
        (i : PaperOrderIntent) (at : Instant) (reason : Text)
        → cancel_order services i at reason s ≡ ok t
        → Advances s t
    unfolding cancel_order
    cancel_order-Advances i at reason h =
        let events = events_for (digest_of services i) s.operations in
        read s t (raise_if (not (is_known services i s)) unknown_intent) _
          (λ _. read s t (reduced services i events) _ (λ state.
            unless s t (is_terminal state.status) _ (
              read s t (lifecycle services i events cancelled at (some reason)) _ (λ e.
                read s t (append services s (happened e)) _
                  (λ result. finish-Advances s result t)))))
          h

-- ===== src/Execution/Planner/Entry.antt =====
-- When `plan_paper_order` of execution/engine.py returns an order, and what holds of that order.
use mini_lakehouse.Common.{
  ℕ, ◌-◌, ◌*◌, ◌≤◌, ◌<◌, ◌≡◌, ◌↔◌, refl, Bool, true, false, not, Option, none, some, List, [], ◌∷◌,
  arith, contains, ok, ◌>>=◌, >>=-eq-ok, >>-eq-ok, raise_if-eq-ok, ok_injective, sym, ◌∙◌, ap,
  ltb→ge, ltb→lt,
}
use mini_lakehouse.Common.Decimal
use mini_lakehouse.Common.Decimal.{Decimal}
use mini_lakehouse.Arbitration.{ArbitrationPolicy}
use mini_lakehouse.Execution.Order.{Digest, Outcome, PaperOrderIntent}
use mini_lakehouse.Execution.Market.{within}
use mini_lakehouse.Execution.Resources.{PaperResourcePosition}
use mini_lakehouse.Execution.Ledger.{with_fee}
use mini_lakehouse.Configuration.Policies.{
  PaperExecutionVersion, ContextVersion, PromotionGateVersion,
}
use mini_lakehouse.Execution.Requests.{
  PaperExecutionRequest, PaperBlockReason, built_intent, PaperOrderPlan, Digests,
}
use mini_lakehouse.Execution.Planner.{
  noted, position_in, is_short_of, is_absent, entry_limit, notional_of, planned_unless,
  given_priority, reserved_for, mismatches_policies, entry_reasons, entry_intent_of,
  plan_paper_order,
}

-- A test that is noted leaves no reasons only if it fails and the later tests fail.
pub noted-eq-none :
    (b : Bool) (r : PaperBlockReason) (rs : List PaperBlockReason)
    → noted b r rs ≡ []
    → (b ≡ false) × (rs ≡ [])
noted-eq-none true r rs h = cc
noted-eq-none false r rs h = (refl, h)

-- What the market, the inventory, the limits and the cash allow: an order at `limit` that
-- reserves `reserved`.
pub record EntryAllowed (q : PaperExecutionRequest) (policy : PaperExecutionVersion)
    (context : ContextVersion) (limit reserved : Decimal) : Type 0 where
  pub tradable : contains q.market.market_status context.tradable_market_statuses ≡ true
  pub fresh :
      q.market.observed_at - q.market.quote_received_at ≤ policy.maximum_quote_age_seconds * 1000000
  pub displayed : policy.order_quantity ≤ q.market.best_ask_quantity
  pub in_band : within q.market.floor_price limit q.market.ceiling_price ≡ true
  pub position : PaperResourcePosition
  pub held : position_in q.resources q.candidate.symbol ≡ some position
  pub settled : policy.order_quantity ≤ position.available_exit_quantity
  pub cycle : policy.order_quantity ≤ q.risk.max_cycle_quantity
  pub notional :
      Decimal.lt q.risk.max_order_notional_vnd (notional_of limit policy.order_quantity) ≡ false
  pub cycles : q.resources.started_cycles < q.risk.max_cycles_per_day
  pub loss :
      Decimal.le q.resources.realized_net_pnl_vnd (Decimal.neg q.risk.max_daily_loss_vnd) ≡ false
  pub cash :
      Decimal.lt (Decimal.sub q.resources.available_cash_vnd reserved) q.risk.cash_reserve_vnd
      ≡ false

present :
    (o : Option PaperResourcePosition) (n : ℕ)
    → is_absent o ≡ false
    → is_short_of n o ≡ false
    → (p : PaperResourcePosition) × (o ≡ some p) × (n ≤ p.available_exit_quantity)
present none n a h = cc
present (some p) n a h = (p, refl, ltb→ge _ _ h)

pub not-false : (b : Bool) → not b ≡ false → b ≡ true
not-false true h = refl
not-false false h = cc

module _ (q : PaperExecutionRequest) (policy : PaperExecutionVersion) (context : ContextVersion)
    (limit reserved : Decimal) where
  entry_reasons-EntryAllowed :
      entry_reasons q policy context limit reserved ≡ []
      → EntryAllowed q policy context limit reserved
  unfolding entry_reasons
  entry_reasons-EntryAllowed h =
      let (t0, h0) = noted-eq-none _ _ _ h in
      let (t1, h1) = noted-eq-none _ _ _ h0 in
      let (t2, h2) = noted-eq-none _ _ _ h1 in
      let (t3, h3) = noted-eq-none _ _ _ h2 in
      let (t4, h4) = noted-eq-none _ _ _ h3 in
      let (t5, h5) = noted-eq-none _ _ _ h4 in
      let (t6, h6) = noted-eq-none _ _ _ h5 in
      let (t7, h7) = noted-eq-none _ _ _ h6 in
      let (t8, h8) = noted-eq-none _ _ _ h7 in
      let (t9, h9) = noted-eq-none _ _ _ h8 in
      let (t10, h10) = noted-eq-none _ _ _ h9 in
      let (p, held, settled) = present _ _ t4 t5 in
      record {
        tradable = not-false _ t0;
        fresh = ltb→ge _ _ t1;
        displayed = ltb→ge _ _ t2;
        in_band = not-false _ t3;
        position = p;
        held = held;
        settled = settled;
        cycle = ltb→ge _ _ t6;
        notional = t7;
        cycles = ltb→lt _ _ (not-false _ t8);
        loss = t9;
        cash = t10;
      }

  EntryAllowed-entry_reasons :
      EntryAllowed q policy context limit reserved
      → entry_reasons q policy context limit reserved ≡ []
  unfolding entry_reasons
  EntryAllowed-entry_reasons a =
      let t0 = a.tradable in
      let t3 = a.in_band in
      let t7 = a.notional in
      let t9 = a.loss in
      let t10 = a.cash in
      let t8 = a.cycles in
      let t1 = a.fresh in
      let t2 = a.displayed in
      let t5 = a.settled in let t6 = a.cycle in rw (t0, t3, t7, t9, t10, a.held) (ground arith)

false_apart : false ≡ true → ⊥
false_apart h = cc

pub planned_unless-ready :
    (d : Digest) (rs : List PaperBlockReason) (m : Outcome PaperOrderIntent) (p : PaperOrderPlan)
    → planned_unless d rs m ≡ ok p
    → p.is_ready ≡ true
    → (rs ≡ []) × ((i : PaperOrderIntent) × (m ≡ ok i) × (p.intent ≡ some i))
planned_unless-ready d [] m p h r =
    let (i, made, built) = >>=-eq-ok m _ h in
    let (valid, same) = >>-eq-ok _ _ built in
    (refl, (i, made, ap (λ x. x.intent) (sym (ok_injective same))))
planned_unless-ready d (x ∷ rs) m p h r =
    let (valid, same) = >>-eq-ok _ _ h in
    absurd (false_apart (ap (λ x. x.is_ready) (ok_injective same) ∙ r))

pub planned_unless-blocked :
    (d : Digest) (rs : List PaperBlockReason) (m : Outcome PaperOrderIntent) (p : PaperOrderPlan)
    → planned_unless d rs m ≡ ok p
    → rs ≡ []
    → p.is_ready ≡ true
planned_unless-blocked d [] m p h e =
    let (i, made, built) = >>=-eq-ok m _ h in
    let (valid, same) = >>-eq-ok _ _ built in ap (λ x. x.is_ready) (sym (ok_injective same))
planned_unless-blocked d (x ∷ rs) m p h e = cc

module _ (env : Digests) (q : PaperExecutionRequest) (policy : PaperExecutionVersion)
    (arbitration : ArbitrationPolicy) (context : ContextVersion) (gate : PromotionGateVersion) where
  -- What a plan of an entry that raised nothing went through.
  pub record EntryPlanned (p : PaperOrderPlan) : Type 0 where
    pub agrees : mismatches_policies env q policy arbitration context gate ≡ false
    pub factor : Decimal
    pub fee : with_fee q.costs.buy_fee_bps ≡ ok factor
    pub planned :
        planned_unless
          (env.arbitration_digest q.arbitration)
          (entry_reasons q policy context
            (entry_limit q.market policy)
            (reserved_for q policy factor))
          (given_priority q.arbitration.priority >>= λ n. built_intent (
            entry_intent_of env q policy
              (entry_limit q.market policy)
              (reserved_for q policy factor)
              n))
        ≡ ok p

  pub plan_paper_order-eq-ok :
      (p : PaperOrderPlan)
      → plan_paper_order env q policy arbitration context gate ≡ ok p
      → EntryPlanned p
  unfolding plan_paper_order
  plan_paper_order-eq-ok p h =
      let (agrees, h1) = >>-eq-ok _ _ h in
      let (factor, fee, h2) = >>=-eq-ok (with_fee q.costs.buy_fee_bps) _ h1 in
      record { agrees = raise_if-eq-ok _ _ agrees; factor = factor; fee = fee; planned = h2 }

  -- An entry plan that is returned is READY exactly when the market is open for trading, the
  -- quote is fresh and large enough, the limit price is in the daily band, the settled shares
  -- above the core cover the order, and the limits on quantity, value, cycles, loss and cash
  -- are kept, for the limit price and the reserved cash, fee included, that it computes.
  pub plan_paper_order-is_ready_iff :
      (p : PaperOrderPlan)
      → plan_paper_order env q policy arbitration context gate ≡ ok p
      → (factor : Decimal) × (with_fee q.costs.buy_fee_bps ≡ ok factor)
        × ((p.is_ready ≡ true)
            ↔ EntryAllowed q policy context
                (entry_limit q.market policy)
                (reserved_for q policy factor))
  plan_paper_order-is_ready_iff p h =
      let e = plan_paper_order-eq-ok p h in
      let limit = entry_limit q.market policy in
      let reserved = reserved_for q policy e.factor in
      (
        e.factor,
        e.fee,
        (
          λ r.
              entry_reasons-EntryAllowed q policy context limit reserved
                (planned_unless-ready _ _ _ p e.planned r).0,
          λ a.
              planned_unless-blocked _ _ _ p e.planned
                (EntryAllowed-entry_reasons q policy context limit reserved a),
        ),
      )

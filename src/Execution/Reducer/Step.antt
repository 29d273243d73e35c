-- ===== src/Execution/Reducer/Step.antt =====
-- What one event must satisfy to be accepted by the loop of `reduce_paper_order`.
use mathlib.Core.List.{append-nil, append_assoc}
use mathlib.Core.Path.{subst}
use mini_lakehouse.Common.{
  ◌-◌, List, [], ◌∷◌, ◌++◌, All, >>=-eq-ok, ◌≤◌, ◌<◌, ◌≡◌, true, false, arith, ltb, contains,
  is_some, differ, ok, >>-eq-ok, raise_if-eq-ok,
}
use mini_lakehouse.Execution.Order.{Hashing, PaperOrderIntent, PaperOrderEvent, validate_event}
use mini_lakehouse.Execution.Reducer.{
  Progress, is_terminal, is_allowed, check_history, check_quantity, check_average, check_fill,
  check_limits, advance, step, run, quantity_of,
}

module _ (hashing : Hashing) (intent : PaperOrderIntent) where
  -- The facts of the first test.
  pub record HistoryFacts (p : Progress) (e : PaperOrderEvent) : Type 0 where
    pub lineage : e.intent_sha256 ≡ hashing.intent_digest intent
    pub new_hash : contains (hashing.event_digest e) p.hashes ≡ false
    pub new_adapter : contains e.adapter_event_id p.adapter_ids ≡ false
    pub later : p.last_sequence < e.sequence
    pub in_time : p.last_at ≤ e.occurred_at
    pub still_open : is_terminal p.status ≡ false
    pub allowed : is_allowed p.status e.event_type ≡ true
    pub grows : p.filled_so_far ≤ e.cumulative_filled_quantity
    pub fits : e.cumulative_filled_quantity ≤ intent.quantity

  -- The facts that the tests of the loop's body leave behind.
  pub record Admitted (p : Progress) (e : PaperOrderEvent) : Type 0 where
    pub past : HistoryFacts p e
    pub open past use *
    pub quantity :
        quantity_of hashing intent e.event_type p.filled_so_far e.cumulative_filled_quantity ≡ ok tt
    pub paired :
        differ (ltb 0 (e.cumulative_filled_quantity - p.filled_so_far)) (is_some e.fill_evidence)
        ≡ false
    pub fill : check_fill hashing intent p e ≡ ok tt
    pub limits : check_limits hashing intent e ≡ ok tt

  check_history-facts :
      (p : Progress) (e : PaperOrderEvent)
      → check_history hashing intent p e ≡ ok tt
      → HistoryFacts p e
  unfolding check_history
  check_history-facts p e h = let t = raise_if-eq-ok _ _ h in ground arith

  check_average-facts :
      (p : Progress) (e : PaperOrderEvent)
      → check_average hashing intent p e ≡ ok tt
      → differ (ltb 0 (e.cumulative_filled_quantity - p.filled_so_far)) (is_some e.fill_evidence)
        ≡ false
  unfolding check_average
  check_average-facts p e h = raise_if-eq-ok _ _ (>>-eq-ok _ _ h).1

  pub step-eq-ok :
      (p : Progress) (e : PaperOrderEvent) {q : Progress}
      → step hashing intent p e ≡ ok q
      → Admitted p e × (q ≡ advance hashing intent p e)
  unfolding step check_quantity
  step-eq-ok p e h =
      let (first, h1) = >>-eq-ok _ _ h in
      let (second, h2) = >>-eq-ok _ _ h1 in
      let (third, h3) = >>-eq-ok _ _ h2 in
      let (fourth, h4) = >>-eq-ok _ _ h3 in
      let (fifth, h5) = >>-eq-ok _ _ h4 in
      (
        record {
          past = check_history-facts p e first;
          quantity = second;
          paired = check_average-facts p e third;
          fill = fourth;
          limits = fifth;
        },
        cc,
      )

  pub run-cons :
      (p : Progress) (e : PaperOrderEvent) (es : List PaperOrderEvent) {q : Progress}
      → run hashing intent p (e ∷ es) ≡ ok q
      → Admitted p e × (run hashing intent (advance hashing intent p e) es ≡ ok q)
  unfolding run
  run-cons p e es h =
      let (p', stepped, rest) = >>=-eq-ok _ _ h in
      let (a, moved) = step-eq-ok p e stepped in (a, rw moved at rest)

  -- What holds of the loop's variables and of the events read so far, at every turn of the loop.
  pub run_induction :
      (P : List PaperOrderEvent → Progress → Type 0)
      → ((done : List PaperOrderEvent) (p : Progress) (e : PaperOrderEvent)
          → validate_event e ≡ ok tt
          → Admitted p e
          → P done p
          → P (done ++ e ∷ []) (advance hashing intent p e))
      → (done events : List PaperOrderEvent) (p q : Progress)
      → All (λ e. validate_event e ≡ ok tt) events
      → run hashing intent p events ≡ ok q
      → P done p
      → P (done ++ events) q
  unfolding run
  run_induction P keep done [] p q valid h base = rw append-nil (subst (P done) (cc) base)
  run_induction P keep done (e ∷ es) p q valid h base =
      let (a, rest) = run-cons p e es h in
      let further = keep done p e valid.0 a base in
      subst (λ l. P l q) (append_assoc done (e ∷ []) es)
        (run_induction P keep (done ++ e ∷ []) es (advance hashing intent p e) q valid.1 rest
          further)

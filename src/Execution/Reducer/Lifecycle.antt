-- ===== src/Execution/Reducer/Lifecycle.antt =====
-- How the status of a paper order and its filled quantity move together.
use native.Mathlib.Numerals.{add-one as add_one}
use mathlib.Core.Path.{subst}
use mini_lakehouse.Common.{
  ℕ, suc, ◌+◌, ◌≤◌, ◌<◌, ◌≡◌, refl, true, false, List, [], ◌∷◌, ◌++◌, arith, is_some, length,
  length-append, ok, >>-eq-ok, >>=-eq-ok, ok_injective, All,
}
use mini_lakehouse.Execution.Order.{
  Hashing, PaperOrderIntent, PaperOrderEvent, PaperOrderState, EventType, accepted,
  partially_filled, filled, rejected, cancelled, expired, OrderStatus, created, after, is_fill,
  validate_event,
}
use mini_lakehouse.Execution.Reducer.{
  Progress, is_allowed, start, run, advance, quantity_of, reduce_paper_order, conclude,
}
use mini_lakehouse.Execution.Reducer.Step.{Admitted, run_induction}

-- The quantity that a status stands for, of an order for `q`.
abbrev pub QuantityFits : OrderStatus → ℕ → ℕ → Type 0
QuantityFits created f q = f ≡ 0
QuantityFits (after accepted) f q = f ≡ 0
QuantityFits (after partially_filled) f q = (0 < f) × (f < q)
QuantityFits (after filled) f q = f ≡ q
QuantityFits (after rejected) f q = f ≡ 0
QuantityFits (after cancelled) f q = f < q
QuantityFits (after expired) f q = f < q

-- How many events can have led to a status.
abbrev pub CountFits : OrderStatus → ℕ → ℕ → ℕ → Type 0
CountFits created f q n = n ≡ 0
CountFits (after accepted) f q n = n ≡ 1
CountFits (after partially_filled) f q n = n ≤ f + 1
CountFits (after _) f q n = n ≤ q + 1

event_pairing :
    (e : PaperOrderEvent)
    → validate_event e ≡ ok tt
    → is_some e.fill_evidence ≡ is_fill e.event_type
unfolding validate_event
event_pairing e h = ground arith

module _ (hashing : Hashing) (intent : PaperOrderIntent) (positive : 0 < intent.quantity) where
  abbrev Consistent : OrderStatus → ℕ → ℕ → Type 0
  Consistent s f n = QuantityFits s f intent.quantity × CountFits s f intent.quantity n

  -- One transition, over the numbers that it reads.
  transition-Consistent :
      (s : OrderStatus) (t : EventType) (f g n : ℕ)
      → is_allowed s t ≡ true
      → quantity_of hashing intent t f g ≡ ok tt
      → f ≤ g
      → g ≤ intent.quantity
      → (is_fill t ≡ false → g ≡ f)
      → Consistent s f n
      → Consistent (after t) g (suc n)
  unfolding quantity_of
  transition-Consistent created t f g n a q le fits unfilled c = ground arith
  transition-Consistent (after s) t f g n a q le fits unfilled c = ground arith

  unfilled_keeps :
      (p : Progress) (e : PaperOrderEvent)
      → validate_event e ≡ ok tt
      → Admitted hashing intent p e
      → is_fill e.event_type ≡ false
      → e.cumulative_filled_quantity ≡ p.filled_so_far
  unfilled_keeps p e valid a plain =
      let pair = event_pairing e valid in
      let paired = a.paired in let grows = a.grows in ground arith

  count_bound : (s : OrderStatus) (f n : ℕ) → Consistent s f n → n ≤ intent.quantity + 1
  count_bound created f n c = ground arith
  count_bound (after t) f n c = ground arith

  start-Consistent : Consistent (start hashing intent).status (start hashing intent).filled_so_far 0
  unfolding start
  start-Consistent = (refl, refl)

  step-Consistent :
      (done : List PaperOrderEvent) (p : Progress) (e : PaperOrderEvent)
      → validate_event e ≡ ok tt
      → Admitted hashing intent p e
      → Consistent p.status p.filled_so_far (length done)
      → Consistent (after e.event_type) e.cumulative_filled_quantity (length (done ++ e ∷ []))
  step-Consistent done p e valid a c = rw (length-append done (e ∷ [])) (
      rw (add_one (length done)) (
        transition-Consistent p.status e.event_type p.filled_so_far e.cumulative_filled_quantity
          (length done) a.allowed a.quantity a.grows a.fits (unfilled_keeps p e valid a) c))

  run-Consistent :
      (events : List PaperOrderEvent) (q : Progress)
      → All (λ e. validate_event e ≡ ok tt) events
      → run hashing intent (start hashing intent) events ≡ ok q
      → Consistent q.status q.filled_so_far (length events)
  unfolding advance
  run-Consistent events q valid h =
      run_induction hashing intent (λ done p. Consistent p.status p.filled_so_far (length done))
        step-Consistent [] events (start hashing intent) q valid h start-Consistent

  -- For valid events, an order that is reduced without an error has a filled quantity that its
  -- status allows: none before the first fill and after a rejection, all of it exactly when
  -- FILLED, strictly between when PARTIALLY_FILLED, less than all when cancelled or expired.
  -- And it has had at most one event more than the shares it was for.
  pub reduce_paper_order-Consistent :
      (events : List PaperOrderEvent) {s : PaperOrderState}
      → All (λ e. validate_event e ≡ ok tt) events
      → reduce_paper_order hashing intent events ≡ ok s
      → QuantityFits s.status s.cumulative_filled_quantity intent.quantity
        × (s.event_count ≡ length events)
        × (s.event_count ≤ intent.quantity + 1)
  unfolding reduce_paper_order conclude
  reduce_paper_order-Consistent events valid h =
      let (q, ran, rest) = >>=-eq-ok _ _ h in
      let (checked, same) = >>-eq-ok _ _ rest in
      let c = run-Consistent events q valid ran in
      subst
        (λ s.
          QuantityFits s.status s.cumulative_filled_quantity intent.quantity
          × (s.event_count ≡ length events)
          × (s.event_count ≤ intent.quantity + 1))
        (ok_injective same) (c.0, refl, count_bound q.status q.filled_so_far (length events) c)

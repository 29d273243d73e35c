-- ===== src/Execution/Runtime/Replay/Refinement.antt =====
-- The incremental `_append` of t0-trading/src/t0_trading/execution/runtime.py has the ledger that the
-- replay of the longer history ends in.
use mini_lakehouse.Common.{
  ◌≡◌, refl, sym, ap, subst, ◌∙◌, inl, inr, some, List, [], ◌∷◌, ◌++◌, map, ◌==◌, find, Bool-cases,
  ok, >>=-eq-ok, >>-eq-ok, raise_if, some_injective, ok_injective, ltb,
}
use mini_lakehouse.Controls.{CostPolicy}
use mini_lakehouse.Execution.Order.{Digest, PaperOrderIntent, PaperOrderEvent}
use mini_lakehouse.Execution.Resources.{PaperResourceLedger}
use mini_lakehouse.Execution.Runtime.{
  Services, PaperSession, Operation, submitted, happened, Replayed, Order, intents_of, events_for,
  order_of, digest_of, reserved, settled, reduced, consumed, checked_intent, replay_on, replay_step,
  replay, append, append_on, appended, clock_rewound, before_operations,
}
use mini_lakehouse.Execution.Runtime.Replay.{
  Tracks, order_for, append_nil, replay_on-inversion, replay_step-Tracks,
}

append_assoc :
    {A : Type 0} (xs : List A) (y : A) (ys : List A) → (xs ++ y ∷ []) ++ ys ≡ xs ++ y ∷ ys
append_assoc [] y ys = refl
append_assoc (x ∷ xs) y ys = ap (λ z. x ∷ z) (append_assoc xs y ys)

module _ (services : Services) where
  replay-Tracks :
      (costs : CostPolicy) (r q : Replayed) (done todo : List Operation)
      → Tracks services r done
      → replay services costs r todo ≡ ok q
      → Tracks services q (done ++ todo)
  unfolding replay
  replay-Tracks costs r q done [] tracks h =
      subst (Tracks services q) (sym (append_nil services done))
        (subst (λ z. Tracks services z done) (ok_injective h) tracks)
  replay-Tracks costs r q done (x ∷ xs) tracks h =
      let (next, steps, rest) = >>=-eq-ok (replay_step services costs r x) _ h in
      subst (Tracks services q) (append_assoc done x xs) (
        replay-Tracks costs next q (done ++ x ∷ []) xs
          (replay_step-Tracks services costs r done tracks x next steps) rest)

  replay-append :
      (costs : CostPolicy) (r q : Replayed) (xs ys : List Operation)
      → replay services costs r xs ≡ ok q
      → replay services costs r (xs ++ ys) ≡ replay services costs q ys
  unfolding replay
  replay-append costs r q [] ys h = ap (λ z. replay services costs z ys) (ok_injective h)
  replay-append costs r q (x ∷ xs) ys h =
      let (next, steps, rest) = >>=-eq-ok (replay_step services costs r x) _ h in
      rw steps (replay-append costs next q xs ys rest)

  find-order_for :
      (ops : List Operation) (d : Digest) (is : List PaperOrderIntent) (o : Order)
      → order_of d (map (order_for services ops) is) ≡ some o
      → (find (λ i. digest_of services i == d) is ≡ some o.intent)
        × (o.history ≡ events_for (digest_of services o.intent) ops)
  find-order_for ops d [] o h = cc
  find-order_for ops d (i ∷ is) o h = elim (Bool-cases (digest_of services i == d)) [
    | inl this ↦
        let same : order_for services ops i ≡ o = some_injective (rw this at h) in
        (
          rw this (ap (λ x. some (x.intent)) same),
          sym (ap (λ x. x.history) same)
              ∙ ap (λ x. events_for (digest_of services x.intent) ops) same,
        )
    | inr other ↦ rw other (find-order_for ops d is o (rw other at h))
  ]

  before-Tracks :
      (s : PaperSession) (ledger : PaperResourceLedger)
      → Tracks services (before_operations services s.account ledger) []
  before-Tracks s ledger = record { orders = refl; known = λ d absent. refl }

  module _ (s : PaperSession) (r : Replayed) (tracks : Tracks services r s.operations)
      (same_ledger : r.ledger ≡ s.ledger) where
    append_on-eq :
        (e : PaperOrderEvent) (o : Order) (q : Replayed)
        → o.history ≡ events_for (digest_of services o.intent) s.operations
        → replay_on services s.costs r e (some o) ≡ ok q
        → append_on services s e (some o.intent) ≡ ok (appended services s (happened e) q.ledger)
    append_on-eq e o q history h =
        let (state, reduces, h1) =
          >>=-eq-ok (reduced services o.intent (o.history ++ e ∷ [])) _ h in
        let (liquidity, consumes, h2) = >>=-eq-ok (consumed e.fill_evidence r.liquidity) _ h1 in
        let (ledger, settles, h3) =
          >>=-eq-ok (settled services s.costs r.ledger o.intent state) _ h2 in
        rw (← history, reduces, ← same_ledger, settles)
          (ap (λ x. ok (appended services s (happened e) x.ledger)) (ok_injective h3))

    append-step :
        (x : Operation) (q : Replayed)
        → replay_step services s.costs r x ≡ ok q
        → append services s x ≡ ok (appended services s x q.ledger)
    unfolding replay_step append
    append-step (submitted i) q h =
        let (_, h1) =
          >>-eq-ok (raise_if (ltb i.created_at r.last_operation_at) clock_rewound) _ h in
        let (checked, h2) = >>-eq-ok (checked_intent services r i) _ h1 in
        let (ledger, reserves, h3) = >>=-eq-ok (reserved services r.ledger i) _ h2 in
        rw (← same_ledger, reserves)
          (ap (λ x. ok (appended services s (submitted i) x.ledger)) (ok_injective h3))
    append-step (happened e) q h =
        let (_, h1) =
          >>-eq-ok (raise_if (ltb e.occurred_at r.last_operation_at) clock_rewound) _ h in
        let (o, found, _) =
          replay_on-inversion services s.costs r s.operations tracks e
            (order_of e.intent_sha256 r.orders) q h1 in
        let (present, history) =
          find-order_for s.operations e.intent_sha256 (intents_of s.operations) o
            (ap (order_of e.intent_sha256) (sym tracks.orders) ∙ found) in
        rw present (append_on-eq e o q history (rw found at h1))

  -- When a session's ledger is the one that its operations replay to, and they replay with one
  -- more operation without an error, `_append` takes that operation and its ledger is the one of
  -- the longer replay.
  pub append-replay :
      (s : PaperSession) (ledger : PaperResourceLedger) (r q : Replayed) (x : Operation)
      → replay services s.costs (before_operations services s.account ledger) s.operations ≡ ok r
      → r.ledger ≡ s.ledger
      → replay services s.costs
          (before_operations services s.account ledger)
          (s.operations ++ x ∷ [])
        ≡ ok q
      → append services s x ≡ ok (appended services s x q.ledger)
  unfolding replay
  append-replay s ledger r q x before same after_ =
      let tracks =
        replay-Tracks s.costs (before_operations services s.account ledger) r [] s.operations
          (before-Tracks s ledger) before in
      let (next, steps, ends) =
        >>=-eq-ok (replay_step services s.costs r x) _
          (sym (replay-append s.costs _ r s.operations (x ∷ []) before) ∙ after_) in
      rw (← ok_injective ends) (append-step s r tracks same x next steps)

-- ===== src/Execution/Runtime/Replay.antt =====
-- `_append` against the replay of `reconcile` in t0-trading/src/t0_trading/execution/runtime.py.
pub mod Refinement
use mini_lakehouse.Common.{
  ℕ, ◌≡◌, refl, sym, ap, ◌∙◌, inl, inr, Bool, true, false, Option, none, some, List, [], ◌∷◌, ◌++◌,
  map, arith, ==→eq, ◌==◌, any, find, All, Bool-cases, if◌then◌else◌, ok, err, ◌>>=◌, ◌>>◌,
  >>=-eq-ok, >>-eq-ok, raise_if, raise_if-eq-ok, ok_injective, ltb,
}
use mini_lakehouse.Controls.{CostPolicy}
use mini_lakehouse.Execution.Order.{Digest, PaperOrderIntent, PaperOrderEvent, is_entry}
use mini_lakehouse.Execution.Resources.{PaperResourceLedger}
use mini_lakehouse.Execution.Runtime.{
  Services, PaperSession, Operation, submitted, happened, at_of, Replayed, Order, intents_of,
  events_for, order_of, extended, digest_of, reserved, settled, reduced, consumed, checked_intent,
  replay_intent, replay_on, replay_operation, replay_step, replay, append, append_on, appended,
  Runtime, clock_rewound, duplicate_intent,
}

module _ (services : Services) where
  -- The dictionaries that the session's properties describe.
  abbrev pub order_for : List Operation → PaperOrderIntent → Order
  order_for ops i = record {
    digest = digest_of services i;
    intent = i;
    history = events_for (digest_of services i) ops;
  }

  -- The replay's dictionaries hold the session's intents in order, each with its events, and every
  -- event is of one of them.
  pub record Tracks (r : Replayed) (ops : List Operation) : Type 0 where
    pub orders : r.orders ≡ map (order_for ops) (intents_of ops)
    pub known : (d : Digest) → any (λ o. o.digest == d) r.orders ≡ false → events_for d ops ≡ []

  intents_of-append :
      (xs ys : List Operation) → intents_of (xs ++ ys) ≡ intents_of xs ++ intents_of ys
  intents_of-append [] ys = refl
  intents_of-append (submitted i ∷ xs) ys = ap (λ z. i ∷ z) (intents_of-append xs ys)
  intents_of-append (happened e ∷ xs) ys = intents_of-append xs ys

  events_for-append :
      (d : Digest) (xs ys : List Operation)
      → events_for d (xs ++ ys) ≡ events_for d xs ++ events_for d ys
  events_for-append d [] ys = refl
  events_for-append d (submitted i ∷ xs) ys = events_for-append d xs ys
  events_for-append d (happened e ∷ xs) ys = elim (Bool-cases (e.intent_sha256 == d)) [
    | inl same ↦ rw (same, events_for-append d xs ys) refl
    | inr other ↦ rw (other, events_for-append d xs ys) refl
  ]

  pub append_nil : {A : Type 0} (xs : List A) → xs ++ [] ≡ xs
  append_nil [] = refl
  append_nil (x ∷ xs) = ap (λ z. x ∷ z) (append_nil xs)

  map-append : {A B : Type 0} (f : A → B) (xs ys : List A) → map f (xs ++ ys) ≡ map f xs ++ map f ys
  map-append f [] ys = refl
  map-append f (x ∷ xs) ys = ap (λ z. f x ∷ z) (map-append f xs ys)

  map-cong :
      {A B : Type 0} (f g : A → B) → ((x : A) → f x ≡ g x) → (xs : List A) → map f xs ≡ map g xs
  map-cong f g h [] = refl
  map-cong f g h (x ∷ xs) = rw (h x, map-cong f g h xs) refl

  map-map :
      {A B C : Type 0} (f : B → C) (g : A → B) (xs : List A)
      → map f (map g xs) ≡ map (λ x. f (g x)) xs
  map-map f g [] = refl
  map-map f g (x ∷ xs) = ap (λ z. f (g x) ∷ z) (map-map f g xs)

  -- A new intent changes no history.
  order_for-submitted :
      (ops : List Operation) (i j : PaperOrderIntent)
      → order_for (ops ++ submitted i ∷ []) j ≡ order_for ops j
  order_for-submitted ops i j =
      rw
        (
          events_for-append (digest_of services j) ops (submitted i ∷ []),
          append_nil (events_for (digest_of services j) ops),
        )
        refl

  -- A new event extends the history of its intent.
  order_for-happened :
      (ops : List Operation) (e : PaperOrderEvent) (j : PaperOrderIntent)
      → order_for (ops ++ happened e ∷ []) j ≡ extended e (order_for ops j)
  order_for-happened ops e j = elim (Bool-cases (e.intent_sha256 == digest_of services j)) [
    | inl same ↦ rw (events_for-append (digest_of services j) ops (happened e ∷ []), same) refl
    | inr other ↦
        rw
          (
            events_for-append (digest_of services j) ops (happened e ∷ []),
            other,
            append_nil (events_for (digest_of services j) ops),
          )
          refl
  ]

  any-append :
      (p : Order → Bool) (xs ys : List Order)
      → any p (xs ++ ys) ≡ false
      → (any p xs ≡ false) × (any p ys ≡ false)
  any-append p [] ys h = (refl, h)
  any-append p (x ∷ xs) ys h = elim (Bool-cases (p x)) [
    | inl yes_ ↦ absurd (ground arith)
    | inr no_ ↦ let rest = any-append p xs ys (rw no_ at h) in (rw no_ (rest.0), rest.1)
  ]

  any-extended :
      (d : Digest) (e : PaperOrderEvent) (os : List Order)
      → any (λ o. o.digest == d) (map (extended e) os) ≡ any (λ o. o.digest == d) os
  any-extended d e [] = refl
  any-extended d e (o ∷ os) = elim (Bool-cases (e.intent_sha256 == o.digest)) [
    | inl same ↦ rw (same, any-extended d e os) refl
    | inr other ↦ rw (other, any-extended d e os) refl
  ]

  find-absent :
      (d : Digest) (o : Order) (os : List Order)
      → order_of d os ≡ some o
      → any (λ x. x.digest == d) os ≡ false
      → ⊥
  find-absent d o [] found absent = cc
  find-absent d o (x ∷ xs) found absent = elim (Bool-cases (x.digest == d)) [
    | inl same ↦ absurd (ground arith)
    | inr other ↦ find-absent d o xs (rw other at found) (rw other at absent)
  ]

  module _ (costs : CostPolicy) (r : Replayed) (ops : List Operation) (tracks : Tracks r ops) where
    submitted-Tracks :
        (i : PaperOrderIntent) (q : Replayed)
        → any (λ o. o.digest == digest_of services i) r.orders ≡ false
        → q.orders
          ≡ r.orders ++ record { digest = digest_of services i; intent = i; history = [] } ∷ []
        → Tracks q (ops ++ submitted i ∷ [])
    submitted-Tracks i q absent same = record {
      orders =
          rw
            (
              same,
              tracks.orders,
              intents_of-append ops (submitted i ∷ []),
              map-append (order_for (ops ++ submitted i ∷ [])) (intents_of ops) (i ∷ []),
              map-cong (order_for (ops ++ submitted i ∷ [])) (order_for ops)
                  (order_for-submitted ops i) (intents_of ops),
              order_for-submitted ops i i,
              tracks.known (digest_of services i) absent,
            )
            refl;
      known = λ d absent_after.
          let before =
            any-append (λ o. o.digest == d) r.orders _
              (ap (any (λ o. o.digest == d)) (sym same) ∙ absent_after) in
          events_for-append d ops (submitted i ∷ [])
          ∙ append_nil (events_for d ops)
          ∙ tracks.known d (before.0);
    }

    happened-Tracks :
        (e : PaperOrderEvent) (o : Order) (q : Replayed)
        → order_of e.intent_sha256 r.orders ≡ some o
        → q.orders ≡ map (extended e) r.orders
        → Tracks q (ops ++ happened e ∷ [])
    happened-Tracks e o q found same = record {
      orders =
          rw
            (
              same,
              tracks.orders,
              intents_of-append ops (happened e ∷ []),
              append_nil (intents_of ops),
              map-map (extended e) (order_for ops) (intents_of ops),
            )
            (map-cong _ _ (λ j. sym (order_for-happened ops e j)) (intents_of ops));
      known = λ d absent.
          let absent_before =
            sym (any-extended d e r.orders) ∙ ap (any (λ o. o.digest == d)) (sym same) ∙ absent in
          elim (Bool-cases (e.intent_sha256 == d)) [
            | inl this ↦
                absurd (
                  find-absent d o r.orders (rw (← ==→eq e.intent_sha256 d this) found)
                    absent_before)
            | inr other ↦
                rw (events_for-append d ops (happened e ∷ []), other, tracks.known d absent_before)
                  refl
          ];
    }

  module _ (costs : CostPolicy) (r : Replayed) (ops : List Operation) (tracks : Tracks r ops) where
    pub replay_on-inversion :
        (e : PaperOrderEvent) (found : Option Order) (q : Replayed)
        → replay_on services costs r e found ≡ ok q
        → (o : Order) × (found ≡ some o) × (q.orders ≡ map (extended e) r.orders)
    replay_on-inversion e none q h = cc
    replay_on-inversion e (some o) q h =
        let (state, reduces, h1) =
          >>=-eq-ok (reduced services o.intent (o.history ++ e ∷ [])) _ h in
        let (liquidity, consumes, h2) = >>=-eq-ok (consumed e.fill_evidence r.liquidity) _ h1 in
        let (ledger, settles, h3) =
          >>=-eq-ok (settled services costs r.ledger o.intent state) _ h2 in
        (o, refl, ap (λ x. x.orders) (sym (ok_injective h3)))

    pub replay_step-Tracks :
        (x : Operation) (q : Replayed)
        → replay_step services costs r x ≡ ok q
        → Tracks q (ops ++ x ∷ [])
    unfolding replay_step
    replay_step-Tracks (submitted i) q h =
        let (_, h1) =
          >>-eq-ok (raise_if (ltb i.created_at r.last_operation_at) clock_rewound) _ h in
        let (checked, h2) = >>-eq-ok (checked_intent services r i) _ h1 in
        let (ledger, reserves, h3) = >>=-eq-ok (reserved services r.ledger i) _ h2 in
        let (fresh, _) =
          >>-eq-ok
            (raise_if (any (λ o. o.digest == digest_of services i) r.orders) duplicate_intent) _
            checked in
        submitted-Tracks costs r ops tracks i q (raise_if-eq-ok _ _ fresh)
          (ap (λ y. y.orders) (sym (ok_injective h3)))
    replay_step-Tracks (happened e) q h =
        let (_, h1) =
          >>-eq-ok (raise_if (ltb e.occurred_at r.last_operation_at) clock_rewound) _ h in
        let (o, found, same) = replay_on-inversion e (order_of e.intent_sha256 r.orders) q h1 in
        happened-Tracks costs r ops tracks e o q found same

-- ===== src/Execution/Ledger/History/Sound.antt =====
-- What every sequence of the transitions of execution/ledger.py keeps.
use mini_lakehouse.Common.{
  ℕ, zero, suc, ◌+◌, ◌≡◌, inl, inr, Bool, List, [], ◌∷◌, ◌++◌, map, arith, Bool-cases, ◌==◌,
  keep_if, All, ok, >>=-eq-ok, ok_injective, Option, sym, ◌∙◌, ap, subst,
}
use mini_lakehouse.Common.Sort.{All-sorted}
use mini_lakehouse.Common.Removal.{match-holds}
use mini_lakehouse.Common.Decimal.{Decimal}
use mini_lakehouse.Execution.Order.{Digest, Symbol, PaperOrderIntent}
use mini_lakehouse.Execution.Resources.{PaperReservation, PaperResourceLedger}
use mini_lakehouse.Execution.Ledger.{
  Environment, awaits_entry, awaits_exit, awaits_sale, pending_of, exiting, other_than, by_entry,
  with_open, opened_of, replaced,
}
use mini_lakehouse.Execution.Ledger.Inversion.{
  reserve_paper_entry-eq-ok, settle_paper_entry-eq-ok, reserve_paper_exit-eq-ok,
  settle_paper_exit-eq-ok, built_reservation-eq-ok,
}
use mini_lakehouse.Execution.Ledger.Held.{held, Ordered, validate_ledger-Ordered}
use mini_lakehouse.Execution.Ledger.Held.Entry.{reserve_paper_entry-held, settle_paper_entry-held}
use mini_lakehouse.Execution.Ledger.Held.Exit.{reserve_paper_exit-held, settle_paper_exit-held}
use mini_lakehouse.Execution.Ledger.History.{
  Transition, reserve_entry, reserve_exit, settle_entry, settle_exit, perform, perform_all, sold_by,
  sold_by_all,
}

module _ {A : Type 0} where
  All-keep_if : (P : A → Type 0) (p : A → Bool) (xs : List A) → All P xs → All P (keep_if p xs)
  All-keep_if P p [] h = tt
  All-keep_if P p (x ∷ xs) h = elim (Bool-cases (p x)) [
    | inl kept ↦ rw kept (h.0, All-keep_if P p xs h.1)
    | inr dropped ↦ rw dropped (All-keep_if P p xs h.1)
  ]

  All-append_one : (P : A → Type 0) (xs : List A) (y : A) → All P xs → P y → All P (xs ++ y ∷ [])
  All-append_one P [] y h k = (k, tt)
  All-append_one P (x ∷ xs) y h k = (h.0, All-append_one P xs y h.1 k)

  All-matched :
      (P : A → Type 0) (p : A → Bool) (xs : List A) {m : A} {ms : List A}
      → All P xs
      → keep_if p xs ≡ m ∷ ms
      → P m
  All-matched P p xs h e = (subst (All P) e (All-keep_if P p xs h)).0

module _ (env : Environment) (symbol_named : Digest → Symbol) where
  open env use {intent_digest}

  -- The digest of the reservation's entry intent stands for its symbol.
  abbrev pub HasIntent : PaperReservation → Type 0
  HasIntent r = symbol_named r.entry_intent_sha256 ≡ r.symbol

  -- So does the digest of an entry intent that a transition is called with.
  abbrev pub IsNamed : Transition → Type 0
  IsNamed (reserve_entry i) = symbol_named (intent_digest i) ≡ i.symbol
  IsNamed (reserve_exit i) = Unit
  IsNamed (settle_entry i t c) = symbol_named (intent_digest i) ≡ i.symbol
  IsNamed (settle_exit i t c) = Unit

  pub record IsSound (l : PaperResourceLedger) : Type 0 where
    pub ordered : Ordered l
    pub lineage : All HasIntent l.reservations

  with_open-HasIntent :
      (rs : List PaperReservation) (d : Digest) (symbol : Symbol) (n : ℕ) (average : Option Decimal)
      (out : List PaperReservation)
      → symbol_named d ≡ symbol
      → All HasIntent rs
      → with_open rs d symbol n average ≡ ok out
      → All HasIntent out
  unfolding with_open
  with_open-HasIntent rs d symbol zero average out k h e = subst (All HasIntent) (ok_injective e) h
  with_open-HasIntent rs d symbol (suc n) average out k h e =
      let (r, built, e1) = >>=-eq-ok _ _ e in
      let same = (built_reservation-eq-ok (opened_of d symbol (suc n) average) r built).1 in
      subst (All HasIntent) (ok_injective e1)
        (All-sorted HasIntent by_entry (rs ++ r ∷ []) (All-append_one HasIntent rs r h (rw same k)))

  replaced-HasIntent :
      (q : PaperReservation) (rs : List PaperReservation)
      → HasIntent q
      → All HasIntent rs
      → All HasIntent (map (replaced q) rs)
  replaced-HasIntent q [] k h = tt
  replaced-HasIntent q (r ∷ rs) k h =
      elim (Bool-cases (r.entry_intent_sha256 == q.entry_intent_sha256)) [
        | inl same ↦ rw same (k, replaced-HasIntent q rs k h.1)
        | inr other ↦ rw other (h.0, replaced-HasIntent q rs k h.1)
      ]

  perform-lineage :
      (x : Transition) (l m : PaperResourceLedger)
      → IsNamed x
      → IsSound l
      → perform env x l ≡ ok m
      → All HasIntent m.reservations
  unfolding perform
  perform-lineage (reserve_entry i) l m named v h =
      let e = reserve_paper_entry-eq-ok env l i m h in
      rw e.result (
        All-sorted HasIntent by_entry (l.reservations ++ pending_of env i ∷ [])
          (All-append_one HasIntent l.reservations (pending_of env i) v.lineage named))
  perform-lineage (reserve_exit i) l m named v h =
      let e = reserve_paper_exit-eq-ok env l i m h in
      rw e.result (
        replaced-HasIntent (exiting env i e.selected) l.reservations
          (All-matched HasIntent (awaits_exit env i) l.reservations v.lineage e.found) v.lineage)
  perform-lineage (settle_entry i t c) l m named v h =
      let e = settle_paper_entry-eq-ok env l i t c m h in
      rw e.result (
        with_open-HasIntent _ _ _ _ _ _ named
          (All-keep_if HasIntent (other_than (intent_digest i)) l.reservations v.lineage) e.kept)
  perform-lineage (settle_exit i t c) l m named v h =
      let e = settle_paper_exit-eq-ok env l i t c m h in
      rw e.result (
        with_open-HasIntent _ _ _ _ _ _
          (All-matched HasIntent (awaits_sale env i) l.reservations v.lineage e.found)
          (All-keep_if HasIntent (other_than e.reservation.entry_intent_sha256) l.reservations
            v.lineage)
          e.kept)

  perform-Ordered :
      (x : Transition) (l m : PaperResourceLedger) → perform env x l ≡ ok m → Ordered m
  unfolding perform
  perform-Ordered (reserve_entry i) l m h =
      validate_ledger-Ordered m (reserve_paper_entry-eq-ok env l i m h).valid
  perform-Ordered (reserve_exit i) l m h =
      validate_ledger-Ordered m (reserve_paper_exit-eq-ok env l i m h).valid
  perform-Ordered (settle_entry i t c) l m h =
      validate_ledger-Ordered m (settle_paper_entry-eq-ok env l i t c m h).valid
  perform-Ordered (settle_exit i t c) l m h =
      validate_ledger-Ordered m (settle_paper_exit-eq-ok env l i t c m h).valid

  symbol_of_match :
      (l : PaperResourceLedger) (i : PaperOrderIntent) (r : PaperReservation)
      (rs : List PaperReservation)
      → symbol_named (intent_digest i) ≡ i.symbol
      → All HasIntent l.reservations
      → keep_if (awaits_entry env i) l.reservations ≡ r ∷ rs
      → r.symbol ≡ i.symbol
  symbol_of_match l i r rs named h e =
      let hit = match-holds (awaits_entry env i) l.reservations e in
      let id : r.entry_intent_sha256 ≡ intent_digest i = ground arith in
      let symbol = All-matched HasIntent (awaits_entry env i) l.reservations h e in
      sym symbol ∙ ap symbol_named id ∙ named

  perform-held :
      (x : Transition) (l m : PaperResourceLedger) (s : Symbol)
      → IsNamed x
      → IsSound l
      → perform env x l ≡ ok m
      → held s m + sold_by env s x l ≡ held s l
  unfolding perform sold_by
  perform-held (reserve_entry i) l m s named v h =
      omega (arith, reserve_paper_entry-held env l m i s v.ordered h)
  perform-held (reserve_exit i) l m s named v h =
      omega (arith, reserve_paper_exit-held env l m i s v.ordered h)
  perform-held (settle_entry i t c) l m s named v h = omega (
    arith,
    settle_paper_entry-held env l m i t c s v.ordered
        (λ r rs. symbol_of_match l i r rs named v.lineage) h,
  )
  perform-held (settle_exit i t c) l m s named v h =
      let e = settle_paper_exit-eq-ok env l i t c m h in
      rw (e.found, sold_by) (settle_paper_exit-held env l m i t c s v.ordered e)

  -- From a sound ledger, where the digest of an entry intent names its symbol (two intents
  -- of one digest have one symbol), any sequence
  -- of transitions that raises nothing ends in a sound ledger, which holds of every symbol,
  -- available or reserved, what the first one held less what the settled exits sold: no share is
  -- lost, made or moved to another symbol.
  pub perform_all-held :
      (xs : List Transition) (l m : PaperResourceLedger) (s : Symbol)
      → All IsNamed xs
      → IsSound l
      → perform_all env xs l ≡ ok m
      → IsSound m × (held s m + sold_by_all env s xs l ≡ held s l)
  unfolding perform_all sold_by_all
  perform_all-held [] l m s named v h =
      subst (λ k. IsSound k × (held s k + 0 ≡ held s l)) (ok_injective h) (v, omega arith)
  perform_all-held (x ∷ xs) l m s named v h =
      let (n, done, rest) = >>=-eq-ok _ _ h in
      let sound : IsSound n = record {
        ordered = perform-Ordered x l n done;
        lineage = perform-lineage x l n named.0 v done;
      } in
      let (v', later) = perform_all-held xs n m s named.1 sound rest in
      (v', rw (done, sold_by_all) (omega (arith, perform-held x l n s named.0 v done)))

-- ===== src/Execution/Ledger/Inversion.antt =====
-- What a transition of execution/ledger.py that raised nothing has done.
use mini_lakehouse.Common.{
  ◌-◌, ◌≤◌, ◌≡◌, false, List, ◌∷◌, keep_if, ok, >>-eq-ok, >>=-eq-ok, ok_injective, raise_if-eq-ok,
  ap, ◌∙◌, sym, ltb→ge, ◌-◌, [],
}
use mini_lakehouse.Common.Int.{sub_ℕ}
use mini_lakehouse.Common.Decimal
use mini_lakehouse.Common.Decimal.{Decimal}
use mini_lakehouse.Controls.{CostPolicy}
use mini_lakehouse.Execution.Order.{PaperOrderIntent, PaperOrderState}
use mini_lakehouse.Execution.Resources.{
  PaperReservation, PaperResourceLedger, PaperResourcePosition, validate_ledger, built_ledger,
  built_reservation, validate_reservation,
}
use mini_lakehouse.Execution.Ledger.{
  Environment, only, reserve_paper_entry, settle_paper_entry, reserve_paper_exit, settle_paper_exit,
  awaits_entry, awaits_exit, awaits_sale, pending_of, exiting, positions_after, with_open,
  other_than, refuses_entry, mismatches_entry, refuses_exit, mismatches_exit, with_entry,
  after_entry, with_exit, after_exit, spent_on, realized_on,
}

-- A built ledger is the one that was asked for, and it is valid.
pub built_ledger-eq-ok :
    (l m : PaperResourceLedger) → built_ledger l ≡ ok m → (validate_ledger m ≡ ok tt) × (m ≡ l)
built_ledger-eq-ok l m h =
    let (valid, same) = >>-eq-ok _ _ h in let e = ok_injective same in (rw (← e) valid, sym e)

pub built_reservation-eq-ok :
    (r q : PaperReservation)
    → built_reservation r ≡ ok q
    → (validate_reservation r ≡ ok tt) × (q ≡ r)
built_reservation-eq-ok r q h =
    let (valid, same) = >>-eq-ok _ _ h in (valid, sym (ok_injective same))

pub only-eq-ok :
    (rs : List PaperReservation) (r : PaperReservation)
    → only rs ≡ ok r
    → (ms : List PaperReservation) × (rs ≡ r ∷ ms)
only-eq-ok [] r h = cc
only-eq-ok (q ∷ ms) r h = (ms, ap (λ x. x ∷ ms) (ok_injective h))

module _ (env : Environment) where
  open env use {intent_digest}

  pub record EntryReserved (l : PaperResourceLedger) (i : PaperOrderIntent)
      (m : PaperResourceLedger) : Type 0 where
    pub allowed : refuses_entry env l i ≡ false
    pub positions : List PaperResourcePosition
    pub shifted : positions_after l i.symbol (sub_ℕ 0 i.reserved_exit_quantity) ≡ ok positions
    pub result : m ≡ with_entry l i.reserved_cash_vnd (pending_of env i) positions
    pub valid : validate_ledger m ≡ ok tt

  pub reserve_paper_entry-eq-ok :
      (l : PaperResourceLedger) (i : PaperOrderIntent) (m : PaperResourceLedger)
      → reserve_paper_entry env l i ≡ ok m
      → EntryReserved l i m
  unfolding reserve_paper_entry
  reserve_paper_entry-eq-ok l i m h =
      let (guard, h1) = >>-eq-ok _ _ h in
      let (pending, built, h2) = >>=-eq-ok _ _ h1 in
      let (positions, shifted, h3) = >>=-eq-ok _ _ h2 in
      let (valid, same) = built_ledger-eq-ok _ _ h3 in
      record {
        allowed = raise_if-eq-ok _ _ guard;
        positions = positions;
        shifted = shifted;
        result =
            same
            ∙ ap (λ r. with_entry l i.reserved_cash_vnd r positions)
                (built_reservation-eq-ok (pending_of env i) pending built).1;
        valid = valid;
      }

  pub record EntrySettled (l : PaperResourceLedger) (i : PaperOrderIntent) (t : PaperOrderState)
      (c : CostPolicy) (m : PaperResourceLedger) : Type 0 where
    pub matching : mismatches_entry env i t c (keep_if (awaits_entry env i) l.reservations) ≡ false
    pub reservation : PaperReservation
    pub others : List PaperReservation
    pub found : keep_if (awaits_entry env i) l.reservations ≡ reservation ∷ others
    pub spent : Decimal
    pub priced : spent_on t.average_fill_price t.cumulative_filled_quantity c ≡ ok spent
    pub covered : Decimal.lt reservation.reserved_cash_vnd spent ≡ false
    pub remaining : List PaperReservation
    pub kept :
        with_open
          (keep_if (other_than (intent_digest i)) l.reservations)
          (intent_digest i)
          i.symbol
          t.cumulative_filled_quantity
          t.average_fill_price
        ≡ ok remaining
    pub positions : List PaperResourcePosition
    pub shifted :
        positions_after l i.symbol
          (sub_ℕ reservation.reserved_exit_quantity t.cumulative_filled_quantity)
        ≡ ok positions
    pub result : m ≡ after_entry l reservation.reserved_cash_vnd spent positions remaining
    pub valid : validate_ledger m ≡ ok tt

  pub settle_paper_entry-eq-ok :
      (l : PaperResourceLedger) (i : PaperOrderIntent) (t : PaperOrderState) (c : CostPolicy)
      (m : PaperResourceLedger)
      → settle_paper_entry env l i t c ≡ ok m
      → EntrySettled l i t c m
  unfolding settle_paper_entry
  settle_paper_entry-eq-ok l i t c m h =
      let (guard, h1) = >>-eq-ok _ _ h in
      let (r, first, h2) = >>=-eq-ok _ _ h1 in
      let (spent, priced, h3) = >>=-eq-ok _ _ h2 in
      let (covered, h4) = >>-eq-ok _ _ h3 in
      let (remaining, kept, h5) = >>=-eq-ok _ _ h4 in
      let (positions, shifted, h6) = >>=-eq-ok _ _ h5 in
      let (valid, same) = built_ledger-eq-ok _ _ h6 in
      let (others, found) = only-eq-ok _ _ first in
      record {
        matching = raise_if-eq-ok _ _ guard;
        reservation = r;
        others = others;
        found = found;
        spent = spent;
        priced = priced;
        covered = raise_if-eq-ok _ _ covered;
        remaining = remaining;
        kept = kept;
        positions = positions;
        shifted = shifted;
        result = same;
        valid = valid;
      }

  pub record ExitReserved (l : PaperResourceLedger) (i : PaperOrderIntent) (m : PaperResourceLedger)
      : Type 0 where
    pub allowed : refuses_exit env l i (keep_if (awaits_exit env i) l.reservations) ≡ false
    pub selected : PaperReservation
    pub others : List PaperReservation
    pub found : keep_if (awaits_exit env i) l.reservations ≡ selected ∷ others
    pub result : m ≡ with_exit l (exiting env i selected)
    pub valid : validate_ledger m ≡ ok tt

  pub reserve_paper_exit-eq-ok :
      (l : PaperResourceLedger) (i : PaperOrderIntent) (m : PaperResourceLedger)
      → reserve_paper_exit env l i ≡ ok m
      → ExitReserved l i m
  unfolding reserve_paper_exit
  reserve_paper_exit-eq-ok l i m h =
      let (guard, h1) = >>-eq-ok _ _ h in
      let (selected, first, h2) = >>=-eq-ok _ _ h1 in
      let (replacement, built, h3) = >>=-eq-ok _ _ h2 in
      let (valid, same) = built_ledger-eq-ok _ _ h3 in
      let (others, found) = only-eq-ok _ _ first in
      record {
        allowed = raise_if-eq-ok _ _ guard;
        selected = selected;
        others = others;
        found = found;
        result = rw (← (built_reservation-eq-ok (exiting env i selected) replacement built).1) same;
        valid = valid;
      }

  pub record ExitSettled (l : PaperResourceLedger) (i : PaperOrderIntent) (t : PaperOrderState)
      (c : CostPolicy) (m : PaperResourceLedger) : Type 0 where
    pub matching : mismatches_exit env i t c (keep_if (awaits_sale env i) l.reservations) ≡ false
    pub reservation : PaperReservation
    pub others : List PaperReservation
    pub found : keep_if (awaits_sale env i) l.reservations ≡ reservation ∷ others
    pub covered : t.cumulative_filled_quantity ≤ reservation.reserved_exit_quantity
    pub realized : Decimal
    pub priced :
        realized_on t.average_fill_price reservation.entry_average_fill_price
          t.cumulative_filled_quantity c
        ≡ ok realized
    pub remaining : List PaperReservation
    pub kept :
        with_open
          (keep_if (other_than reservation.entry_intent_sha256) l.reservations)
          reservation.entry_intent_sha256
          reservation.symbol
          (reservation.reserved_exit_quantity - t.cumulative_filled_quantity)
          reservation.entry_average_fill_price
        ≡ ok remaining
    pub result : m ≡ after_exit l realized remaining
    pub valid : validate_ledger m ≡ ok tt

  pub settle_paper_exit-eq-ok :
      (l : PaperResourceLedger) (i : PaperOrderIntent) (t : PaperOrderState) (c : CostPolicy)
      (m : PaperResourceLedger)
      → settle_paper_exit env l i t c ≡ ok m
      → ExitSettled l i t c m
  unfolding settle_paper_exit
  settle_paper_exit-eq-ok l i t c m h =
      let (guard, h1) = >>-eq-ok _ _ h in
      let (r, first, h2) = >>=-eq-ok _ _ h1 in
      let (covered, h3) = >>-eq-ok _ _ h2 in
      let (realized, priced, h4) = >>=-eq-ok _ _ h3 in
      let (remaining, kept, h5) = >>=-eq-ok _ _ h4 in
      let (valid, same) = built_ledger-eq-ok _ _ h5 in
      let (others, found) = only-eq-ok _ _ first in
      record {
        matching = raise_if-eq-ok _ _ guard;
        reservation = r;
        others = others;
        found = found;
        covered = ltb→ge _ _ (raise_if-eq-ok _ _ covered);
        realized = realized;
        priced = priced;
        remaining = remaining;
        kept = kept;
        result = same;
        valid = valid;
      }

-- ===== src/Execution/Ledger/Held/Entry.antt =====
-- The entry side of execution/ledger.py moves shares between available and reserved.
use mini_lakehouse.Common.{◌+◌, ◌≡◌, List, ◌∷◌, arith, ok, keep_if, subst}
use mini_lakehouse.Common.Int.{sub_ℕ}
use mini_lakehouse.Common.Removal.{match-holds, sum_of-removed}
use mini_lakehouse.Controls.{CostPolicy}
use mini_lakehouse.Execution.Order.{Symbol, PaperOrderIntent, PaperOrderState}
use mini_lakehouse.Execution.Resources.{PaperReservation, PaperResourceLedger}
use mini_lakehouse.Execution.Ledger.{
  Environment, reserve_paper_entry, settle_paper_entry, awaits_entry, pending_of, other_than,
}
use mini_lakehouse.Execution.Ledger.Inversion.{
  reserve_paper_entry-eq-ok, settle_paper_entry-eq-ok, EntrySettled,
}
use mini_lakehouse.Execution.Ledger.Held.{
  held, reserved_in, reserved_of_symbol, Ordered, ids-IsUnique, positions_after_lem,
  reserved_in-added, with_open_lem,
}

module _ (env : Environment) where
  open env use {intent_digest}

  -- Reserving an entry moves shares from available to reserved, and holds on to all of them.
  pub reserve_paper_entry-held :
      (l m : PaperResourceLedger) (i : PaperOrderIntent) (s : Symbol)
      → Ordered l
      → reserve_paper_entry env l i ≡ ok m
      → held s m ≡ held s l
  reserve_paper_entry-held l m i s o h =
      let e = reserve_paper_entry-eq-ok env l i m h in
      rw e.result (
        ground (
          arith,
          positions_after_lem l i.symbol s (sub_ℕ 0 i.reserved_exit_quantity) {qs = e.positions} o
              e.shifted,
          reserved_in-added s l.reservations (pending_of env i),
        ))

  -- Without the settled reservation, the rest reserve what they did.
  settled_rest :
      (l m : PaperResourceLedger) (i : PaperOrderIntent) (t : PaperOrderState) (c : CostPolicy)
      (s : Symbol)
      → Ordered l
      → (e : EntrySettled env l i t c m)
      → reserved_in s (keep_if (other_than (intent_digest i)) l.reservations)
          + reserved_of_symbol s e.reservation
        ≡ reserved_in s l.reservations
  settled_rest l m i t c s o e =
      let hit = match-holds (awaits_entry env i) l.reservations e.found in
      let id : e.reservation.entry_intent_sha256 ≡ intent_digest i = ground arith in
      subst
        (λ d.
          reserved_in s (keep_if (other_than d) l.reservations) + reserved_of_symbol s e.reservation
          ≡ reserved_in s l.reservations)
        id
        (sum_of-removed (λ r. r.entry_intent_sha256) (reserved_of_symbol s) (awaits_entry env i)
          l.reservations e.found (ids-IsUnique o))

  -- Settling an entry gives the unused shares back, and holds on to all of them, if the
  -- reservation that it settles is of the symbol of its intent.
  pub settle_paper_entry-held :
      (l m : PaperResourceLedger) (i : PaperOrderIntent) (t : PaperOrderState) (c : CostPolicy)
      (s : Symbol)
      → Ordered l
      → ((r : PaperReservation) (rs : List PaperReservation)
          → keep_if (awaits_entry env i) l.reservations ≡ r ∷ rs
          → r.symbol ≡ i.symbol)
      → settle_paper_entry env l i t c ≡ ok m
      → held s m ≡ held s l
  settle_paper_entry-held l m i t c s o lineage h =
      let e = settle_paper_entry-eq-ok env l i t c m h in
      let symbol = lineage e.reservation e.others e.found in
      rw e.result (
        ground (
          arith,
          settled_rest l m i t c s o e,
          positions_after_lem l i.symbol s
              (sub_ℕ e.reservation.reserved_exit_quantity t.cumulative_filled_quantity)
              {qs = e.positions} o e.shifted,
          with_open_lem s (keep_if (other_than (intent_digest i)) l.reservations) (intent_digest i)
              i.symbol t.cumulative_filled_quantity t.average_fill_price {out = e.remaining} e.kept,
        ))

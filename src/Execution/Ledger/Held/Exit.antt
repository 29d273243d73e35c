-- ===== src/Execution/Ledger/Held/Exit.antt =====
-- The exit side of execution/ledger.py: an exit order leaves the shares reserved, and its
-- settlement gives up the shares that were sold.
use mini_lakehouse.Common.{ℕ, ◌+◌, ◌-◌, ◌≡◌, refl, ◌==◌, arith, ok, keep_if, if◌then◌else◌}
use mini_lakehouse.Common.Removal.{sum_of-removed, sum_of-replaced}
use mini_lakehouse.Controls.{CostPolicy}
use mini_lakehouse.Execution.Order.{Symbol, PaperOrderIntent, PaperOrderState}
use mini_lakehouse.Execution.Resources.{PaperReservation, PaperResourceLedger}
use mini_lakehouse.Execution.Ledger.{
  Environment, reserve_paper_exit, awaits_exit, awaits_sale, exiting, other_than,
}
use mini_lakehouse.Execution.Ledger.Inversion.{reserve_paper_exit-eq-ok, ExitSettled}
use mini_lakehouse.Execution.Ledger.Held.{
  held, reserved_of_symbol, Ordered, ids-IsUnique, with_open_lem,
}

module _ (env : Environment) where
  -- An exit order leaves the shares where they are.
  pub reserve_paper_exit-held :
      (l m : PaperResourceLedger) (i : PaperOrderIntent) (s : Symbol)
      → Ordered l
      → reserve_paper_exit env l i ≡ ok m
      → held s m ≡ held s l
  reserve_paper_exit-held l m i s o h =
      let e = reserve_paper_exit-eq-ok env l i m h in
      rw e.result (
        ground (
          arith,
          sum_of-replaced (λ r. r.entry_intent_sha256) (reserved_of_symbol s) (awaits_exit env i)
              (exiting env i e.selected) l.reservations e.found refl refl (ids-IsUnique o),
        ))

  -- The shares of `s` that an exit order sold.
  abbrev pub sold_of : Symbol → PaperReservation → PaperOrderState → ℕ
  sold_of s r t = if r.symbol == s then t.cumulative_filled_quantity else 0

  -- The settlement of an exit gives up the shares that it sold, and no others.
  pub settle_paper_exit-held :
      (l m : PaperResourceLedger) (i : PaperOrderIntent) (t : PaperOrderState) (c : CostPolicy)
      (s : Symbol)
      → Ordered l
      → (e : ExitSettled env l i t c m) → held s m + sold_of s e.reservation t ≡ held s l
  settle_paper_exit-held l m i t c s o e =
      let r = e.reservation in
      let covered = e.covered in
      rw e.result (
        ground (
          arith,
          sum_of-removed (λ x. x.entry_intent_sha256) (reserved_of_symbol s) (awaits_sale env i)
              l.reservations e.found (ids-IsUnique o),
          with_open_lem s (keep_if (other_than r.entry_intent_sha256) l.reservations)
              r.entry_intent_sha256 r.symbol
              (r.reserved_exit_quantity - t.cumulative_filled_quantity) r.entry_average_fill_price
              {out = e.remaining} e.kept,
        ))

-- ===== src/Execution/Ledger/History.antt =====
-- Any sequence of the transitions of execution/ledger.py, from a valid ledger.
pub mod Sound
use mini_lakehouse.Common.{
  ℕ, zero, suc, ◌+◌, ◌≡◌, refl, inl, inr, Bool, true, false, List, [], ◌∷◌, ◌++◌, map, arith,
  Bool-cases, ◌==◌, keep_if, All, ok, err, ◌>>=◌, >>=-eq-ok, ok_injective, Option, sym, ◌∙◌, ap,
  subst, if◌then◌else◌,
}
use mini_lakehouse.Common.Sort.{sorted, All-sorted}
use mini_lakehouse.Common.Removal.{match-holds}
use mini_lakehouse.Common.Decimal.{Decimal}
use mini_lakehouse.Controls.{CostPolicy}
use mini_lakehouse.Execution.Order.{Digest, Symbol, Outcome, PaperOrderIntent, PaperOrderState}
use mini_lakehouse.Execution.Resources.{PaperReservation, PaperResourceLedger, built_reservation}
use mini_lakehouse.Execution.Ledger.{
  Environment, reserve_paper_entry, settle_paper_entry, reserve_paper_exit, settle_paper_exit,
  awaits_entry, awaits_exit, awaits_sale, pending_of, exiting, other_than, by_entry, with_open,
  opened_of, replaced,
}
use mini_lakehouse.Execution.Ledger.Inversion.{
  EntryReserved, EntrySettled, ExitReserved, ExitSettled, reserve_paper_entry-eq-ok,
  settle_paper_entry-eq-ok, reserve_paper_exit-eq-ok, settle_paper_exit-eq-ok,
  built_reservation-eq-ok,
}
use mini_lakehouse.Execution.Ledger.Held.{held, Ordered, validate_ledger-Ordered}
use mini_lakehouse.Execution.Ledger.Held.Entry.{reserve_paper_entry-held, settle_paper_entry-held}
use mini_lakehouse.Execution.Ledger.Held.Exit.{
  reserve_paper_exit-held, settle_paper_exit-held, sold_of,
}

-- A call of one of the four transitions.
pub data Transition : Type 0 where
  reserve_entry reserve_exit : PaperOrderIntent → Transition
  settle_entry settle_exit : PaperOrderIntent → PaperOrderState → CostPolicy → Transition

module _ (env : Environment) where
  open env use {intent_digest}

  unfoldable pub perform : Transition → PaperResourceLedger → Outcome PaperResourceLedger
  perform (reserve_entry i) l = reserve_paper_entry env l i
  perform (reserve_exit i) l = reserve_paper_exit env l i
  perform (settle_entry i t c) l = settle_paper_entry env l i t c
  perform (settle_exit i t c) l = settle_paper_exit env l i t c

  unfoldable pub perform_all : List Transition → PaperResourceLedger → Outcome PaperResourceLedger
  unfolding perform
  perform_all [] l = ok l
  perform_all (x ∷ xs) l = perform x l >>= λ m. perform_all xs m

  -- The shares of `s` that a transition sells: those of the exit that it settles.
  unfoldable pub sold_by : Symbol → Transition → PaperResourceLedger → ℕ
  sold_by s (reserve_entry i) l = 0
  sold_by s (reserve_exit i) l = 0
  sold_by s (settle_entry i t c) l = 0
  sold_by s (settle_exit i t c) l = elim (keep_if (awaits_sale env i) l.reservations) [
    | [] ↦ 0
    | r ∷ _ ↦ sold_of env s r t
  ]

  unfoldable pub sold_by_all : Symbol → List Transition → PaperResourceLedger → ℕ
  unfolding perform sold_by
  sold_by_all s [] l = 0
  sold_by_all s (x ∷ xs) l = elim (perform x l) [
    | ok m ↦ sold_by s x l + sold_by_all s xs m
    | err _ ↦ 0
  ]

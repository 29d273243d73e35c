-- ===== src/Simulation/Report/Restored.antt =====
-- When every cycle of a replay closed, simulation/engine.py finds the inventory as it was.
use mini_lakehouse.Common.{
  ℕ, ◌≡◌, refl, false, List, [], ◌∷◌, arith, ◌==◌, contains, IsUnique, All, ok, >>=-eq-ok,
  ok_injective, subst,
}
use mini_lakehouse.Common.Sort.{sorted, All-sorted}
use mini_lakehouse.Controls.{AccountPosition, validate_core, total_qty, symbols_of}
use mini_lakehouse.Simulation.{ArbitratedCycleProposal, SimulationRequest, Digests, priority}
use mini_lakehouse.Simulation.Cycle.{State, initial_of, total}
use mini_lakehouse.Simulation.Engine.{Event, events_of, event_le, replayed, start}
use mini_lakehouse.Simulation.Inventory.{opened}
use mini_lakehouse.Simulation.Report.{has_changed}
use mini_lakehouse.Simulation.Balance.{Balanced, HasSize, start-Balanced, replay-Balanced}

initial_of-later :
    (b : AccountPosition) (rest xs : List AccountPosition)
    → contains b.symbol (symbols_of xs) ≡ false
    → All (λ a. initial_of a.symbol rest ≡ ok a) xs
    → All (λ a. initial_of a.symbol (b ∷ rest) ≡ ok a) xs
unfolding initial_of
initial_of-later b rest [] h all = tt
initial_of-later b rest (a ∷ xs) h all =
    let apart : (b.symbol == a.symbol) ≡ false = ground arith in
    let others : contains b.symbol (symbols_of xs) ≡ false = ground arith in
    (rw apart all.0, initial_of-later b rest xs others all.1)

-- Every position is the one that its symbol names.
initial_of-All :
    (accounts : List AccountPosition)
    → IsUnique (symbols_of accounts)
    → All (λ a. initial_of a.symbol accounts ≡ ok a) accounts
unfolding initial_of
initial_of-All [] u = tt
initial_of-All (a ∷ rest) u =
    (ground arith, initial_of-later a rest rest u.0 (initial_of-All rest u.1))

module _ (env : Digests) (r : SimulationRequest) (size : ℕ → ℕ) where
  events_of-HasSize :
      (ps : List ArbitratedCycleProposal) (es : List Event)
      → All (λ p. HasSize env r size p) ps
      → events_of ps ≡ ok es
      → All (λ e. HasSize env r size e.proposal) es
  unfolding events_of
  events_of-HasSize [] es v h =
      subst (λ z. All (λ e. HasSize env r size e.proposal) z) (ok_injective h) tt
  events_of-HasSize (p ∷ ps) es v h =
      let (n, given, h1) = >>=-eq-ok (priority p) _ h in
      let (rest, later, h2) = >>=-eq-ok (events_of ps) _ h1 in
      subst (λ z. All (λ e. HasSize env r size e.proposal) z) (ok_injective h2)
        (v.0, (v.0, events_of-HasSize ps rest v.1 later))

  -- A replay of a request whose accounts are valid, and whose cycles have one quantity each, is
  -- balanced when it ends without an error.
  pub replayed-Balanced :
      (t : State)
      → All (λ a. validate_core a ≡ ok tt) r.account.positions
      → All (λ p. HasSize env r size p) r.proposals
      → replayed env r ≡ ok t
      → Balanced env r size t
  unfolding replayed
  replayed-Balanced t v sized h =
      let (es, listed, h1) = >>=-eq-ok (events_of r.proposals) _ h in
      replay-Balanced env r size (sorted event_le es) (start env r) t
        (All-sorted (λ e. HasSize env r size e.proposal) event_le es
          (events_of-HasSize r.proposals es sized listed))
        (start-Balanced env r size v) h1

  unchanged :
      (t : State) (xs : List AccountPosition)
      → Balanced env r size t
      → t.open_by_symbol ≡ []
      → All (λ a. initial_of a.symbol r.account.positions ≡ ok a) xs
      → has_changed t.positions xs ≡ ok false
  unfolding has_changed
  unchanged t [] b e known = refl
  unchanged t (a ∷ xs) b e known =
      let at = b.shares a.symbol a known.0 in
      let found = at.found in
      let rest = unchanged t xs b e known.1 in
      let none_open : opened a.symbol t.open_by_symbol ≡ 0 = rw e refl in
      let shares = at.shares in
      let same : total at.position ≡ total_qty a = omega arith in rw (found, rest) (ground arith)

  -- If every cycle that a replay opened has closed, each symbol's total is what the account had,
  -- so the error for a changed inventory is not raised: for valid accounts, one position for
  -- each symbol, and cycles of one quantity each.
  pub replayed-has_changed :
      (t : State)
      → All (λ a. validate_core a ≡ ok tt) r.account.positions
      → IsUnique (symbols_of r.account.positions)
      → All (λ p. HasSize env r size p) r.proposals
      → replayed env r ≡ ok t
      → t.open_by_symbol ≡ []
      → has_changed t.positions r.account.positions ≡ ok false
  replayed-has_changed t v u sized h e =
      unchanged t r.account.positions (replayed-Balanced t v sized h) e
        (initial_of-All r.account.positions u)

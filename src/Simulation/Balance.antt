-- ===== src/Simulation/Balance.antt =====
-- The replay of simulation/engine.py loses no share: what a symbol has more than at the start is
-- what its open cycles bought, and the settled shares never fall below the core.
use mini_lakehouse.Common.{
  ℕ, ◌+◌, ◌≤◌, ◌≡◌, ◌≢◌, refl, sym, ap, ◌∙◌, inl, inr, Bool, some, List, [], ◌∷◌, map, arith, ◌==◌,
  ◌!=◌, keep_if, IsUnique, All, ok, >>=-eq-ok, ok_injective, Bool-cases, !=→eq, ==→eq, subst,
  ltb→ge, raise_if-eq-ok, >>-eq-ok,
}
use mini_lakehouse.Controls.{AccountPosition, validate_core, total_qty}
use mini_lakehouse.Simulation.{ArbitratedCycleProposal, SimulationRequest, Digests, cycle_id}
use mini_lakehouse.Simulation.Cycle.{
  Position, total, OpenCycle, State, position_of, with_position, initial_of, symbol_of,
  started_position, open_of,
}
use mini_lakehouse.Simulation.Engine.{Event, handle, replay, start}
use mini_lakehouse.Simulation.Inventory.{
  position_of-symbol, with_position-same, with_position-other, started-position_of, bought_of,
  opened, opened-removed, keep_if-IsUnique, not_busy,
}
use mini_lakehouse.Simulation.Moves.{
  Kept, Bought, Sold, Moved, after_entry, after_exit, handle-Moved,
}

-- One symbol's shares, against its position in the account.
pub record BalancedAt (x : ℕ) (a : AccountPosition) (positions : List Position)
    (cycles : List OpenCycle) : Type 0 where
  pub position : Position
  pub found : position_of x positions ≡ ok position
  pub shares : total position ≡ total_qty a + opened x cycles
  pub core : a.core_min_qty ≤ position.settled

module _ (env : Digests) (r : SimulationRequest) (size : ℕ → ℕ) where
  -- The quantity that a cycle's identifier stands for.
  abbrev pub HasSize : ArbitratedCycleProposal → Type 0
  HasSize p = p.outcome.order_quantity ≡ size (cycle_id env p)

  pub record Balanced (s : State) : Type 0 where
    pub single : IsUnique (map symbol_of s.open_by_symbol)
    pub sizes : All (λ o. HasSize o.proposal) s.open_by_symbol
    pub shares :
        (x : ℕ) (a : AccountPosition)
        → initial_of x r.account.positions ≡ ok a
        → BalancedAt x a s.positions s.open_by_symbol

  -- Writing the position of `q` leaves the other symbols alone.
  elsewhere :
      (x : ℕ) (a : AccountPosition) (q : Position) (ps : List Position) (os os' : List OpenCycle)
      → x ≢ q.symbol
      → opened x os' ≡ opened x os
      → BalancedAt x a ps os
      → BalancedAt x a (with_position q ps) os'
  elsewhere x a q ps os os' apart same b = record {
    position = b.position;
    found = with_position-other q ps x apart ∙ b.found;
    shares = let h = b.shares in rw same h;
    core = b.core;
  }

  -- Writing the position of `x` itself.
  rewritten :
      (x : ℕ) (a : AccountPosition) (p q : Position) (ps : List Position) (os os' : List OpenCycle)
      → position_of x ps ≡ ok p
      → q.symbol ≡ x
      → total q + opened x os ≡ total p + opened x os'
      → (a.core_min_qty ≤ p.settled → a.core_min_qty ≤ q.settled)
      → BalancedAt x a ps os
      → BalancedAt x a (with_position q ps) os'
  rewritten x a p q ps os os' f same moved floor b =
      let e : b.position ≡ p = ok_injective (sym b.found ∙ f) in
      let shares : total p ≡ total_qty a + opened x os =
        subst (λ z. total z ≡ total_qty a + opened x os) e b.shares in
      record {
        position = q;
        found =
            subst (λ z. position_of z (with_position q ps) ≡ ok q) same
              (with_position-same q ps p (subst (λ z. position_of z ps ≡ ok p) (sym same) f));
        shares = omega arith;
        core = floor (subst (λ z. a.core_min_qty ≤ z.settled) e b.core);
      }

  Kept-Balanced : (s t : State) → Kept s t → Balanced s → Balanced t
  Kept-Balanced s t k b =
      let e1 = k.positions in
      let e2 = k.cycles in
      record {
        single = rw e2 (b.single);
        sizes = rw e2 (b.sizes);
        shares = λ x a h. rw (e1, e2) (b.shares x a h);
      }

  Bought-shares :
      (s t : State) (p : ArbitratedCycleProposal)
      → (m : Bought s t p) → Balanced s
      → (x : ℕ) (a : AccountPosition) → initial_of x r.account.positions ≡ ok a
      → BalancedAt x a
          (with_position (after_entry p m.position) s.positions)
          (record { proposal = p; entry = m.entry } ∷ s.open_by_symbol)
  Bought-shares s t p m b x a h =
      let at = b.shares x a h in
      let symbol = position_of-symbol _ _ _ m.found in
      elim (Bool-cases (p.candidate.symbol == x)) [
        | inl here ↦
            let e = ==→eq _ _ here in
            rewritten x a m.position (after_entry p m.position) s.positions s.open_by_symbol _
              (subst (λ z. position_of z s.positions ≡ ok m.position) e m.found) (symbol ∙ e)
              (rw here (omega arith)) (λ c. c) at
        | inr other ↦
            elsewhere x a (after_entry p m.position) s.positions s.open_by_symbol _ (ground arith)
              (ground arith) at
      ]

  Bought-Balanced :
      (s t : State) (p : ArbitratedCycleProposal)
      → HasSize p
      → Bought s t p
      → Balanced s
      → Balanced t
  Bought-Balanced s t p size m b =
      let e1 = m.positions in
      let e2 = m.cycles in
      record {
        single = rw e2 (not_busy p.candidate.symbol s.open_by_symbol m.free, b.single);
        sizes = rw e2 (size, b.sizes);
        shares = λ x a h. rw (e1, e2) (Bought-shares s t p m b x a h);
      }

  All-keep_if :
      (t : OpenCycle → Bool) (os : List OpenCycle)
      → All (λ o. HasSize o.proposal) os
      → All (λ o. HasSize o.proposal) (keep_if t os)
  All-keep_if t [] h = tt
  All-keep_if t (o ∷ os) h = elim (Bool-cases (t o)) [
    | inl kept ↦ rw kept (h.0, All-keep_if t os h.1)
    | inr dropped ↦ rw dropped (All-keep_if t os h.1)
  ]

  open_of-HasSize :
      (x : ℕ) (os : List OpenCycle) (o : OpenCycle)
      → open_of x os ≡ some o
      → All (λ o. HasSize o.proposal) os
      → HasSize o.proposal
  open_of-HasSize x [] o h all = cc
  open_of-HasSize x (c ∷ os) o h all = elim (Bool-cases (symbol_of c == x)) [
    | inl here ↦
        let e : some c ≡ some o = rw here at h in
        let same : c ≡ o = cc in subst (λ z. HasSize z.proposal) same all.0
    | inr later ↦ open_of-HasSize x os o (rw later at h) all.1
  ]

  Sold-shares :
      (s t : State) (p : ArbitratedCycleProposal)
      → HasSize p
      → (m : Sold env r s t p) → Balanced s
      → (x : ℕ) (a : AccountPosition) → initial_of x r.account.positions ≡ ok a
      → BalancedAt x a
          (with_position (after_exit p m.position) s.positions)
          (keep_if (λ o. symbol_of o != p.candidate.symbol) s.open_by_symbol)
  Sold-shares s t p hp m b x a h =
      let at = b.shares x a h in
      let symbol = position_of-symbol _ _ _ m.found in
      let (own, removed) =
        opened-removed p.candidate.symbol x s.open_by_symbol m.cycle m.held b.single in
      let ho = open_of-HasSize p.candidate.symbol s.open_by_symbol m.cycle m.held b.sizes in
      let quantity : m.cycle.proposal.outcome.order_quantity ≡ p.outcome.order_quantity =
        ho ∙ ap size (!=→eq _ _ m.lineage) ∙ sym hp in
      let enough = m.enough in
      elim (Bool-cases (p.candidate.symbol == x)) [
        | inl here ↦
            let e = ==→eq _ _ here in
            let weight : bought_of x m.cycle ≡ p.outcome.order_quantity =
              rw own (rw here quantity) in
            let known : m.account ≡ a =
              ok_injective
                (sym m.known ∙ subst (λ z. initial_of z r.account.positions ≡ ok a) (sym e) h) in
            rewritten x a m.position (after_exit p m.position) s.positions s.open_by_symbol _
              (subst (λ z. position_of z s.positions ≡ ok m.position) e m.found) (symbol ∙ e)
              (omega arith) (λ c. let floor = ap (λ z. z.core_min_qty) known in omega arith) at
        | inr other ↦
            let weight : bought_of x m.cycle ≡ 0 = rw own (rw other refl) in
            elsewhere x a (after_exit p m.position) s.positions s.open_by_symbol _ (ground arith)
              (omega arith) at
      ]

  Sold-Balanced :
      (s t : State) (p : ArbitratedCycleProposal)
      → HasSize p
      → Sold env r s t p
      → Balanced s
      → Balanced t
  Sold-Balanced s t p size m b =
      let e1 = m.positions in
      let e2 = m.cycles in
      record {
        single = rw e2 (keep_if-IsUnique p.candidate.symbol s.open_by_symbol b.single);
        sizes =
            rw e2 (All-keep_if (λ o. symbol_of o != p.candidate.symbol) s.open_by_symbol b.sizes);
        shares = λ x a h. rw (e1, e2) (Sold-shares s t p size m b x a h);
      }

  Moved-Balanced :
      (s t : State) (p : ArbitratedCycleProposal)
      → HasSize p
      → Moved env r s t p
      → Balanced s
      → Balanced t
  Moved-Balanced s t p size (inl kept) b = Kept-Balanced s t kept b
  Moved-Balanced s t p size (inr (inl bought)) b = Bought-Balanced s t p size bought b
  Moved-Balanced s t p size (inr (inr sold)) b = Sold-Balanced s t p size sold b

  initial-core :
      (x : ℕ) (accounts : List AccountPosition) (a : AccountPosition)
      → All (λ a. validate_core a ≡ ok tt) accounts
      → initial_of x accounts ≡ ok a
      → a.core_min_qty ≤ a.settled_qty
  unfolding initial_of validate_core
  initial-core x [] a v h = cc
  initial-core x (b ∷ rest) a v h = elim (Bool-cases (b.symbol == x)) [
    | inl here ↦
        let e : b ≡ a = ok_injective (rw here at h) in
        subst (λ z. z.core_min_qty ≤ z.settled_qty) e
          (ltb→ge _ _ (raise_if-eq-ok _ _ (>>-eq-ok _ _ v.0).1))
    | inr later ↦ initial-core x rest a v.1 (rw later at h)
  ]

  pub start-Balanced :
      All (λ a. validate_core a ≡ ok tt) r.account.positions → Balanced (start env r)
  unfolding start
  start-Balanced v = record {
    single = tt;
    sizes = tt;
    shares = λ x a h. record {
      position = started_position a;
      found = started-position_of x r.account.positions a h;
      shares = omega arith;
      core = initial-core x r.account.positions a v h;
    };
  }

  -- Every replay that raises nothing from the account's positions, over any events whose
  -- cycles have one quantity each, keeps every symbol's shares: its total is that of the account
  -- and what its open cycles bought, and its settled shares are no fewer than its core.
  pub replay-Balanced :
      (es : List Event) (s t : State)
      → All (λ e. HasSize e.proposal) es
      → Balanced s
      → replay env r s es ≡ ok t
      → Balanced t
  unfolding replay
  replay-Balanced [] s t v b h = subst Balanced (ok_injective h) b
  replay-Balanced (e ∷ es) s t v b h =
      let (next, handled, h1) = >>=-eq-ok (handle env r s e) _ h in
      replay-Balanced es next t v.1
        (Moved-Balanced s next e.proposal v.0 (handle-Moved env r s next e handled) b) h1

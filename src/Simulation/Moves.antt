-- ===== src/Simulation/Moves.antt =====
-- What one event of the replay in simulation/engine.py does to the positions and the open cycles.
use mini_lakehouse.Common.{
  ◌+◌, ◌-◌, ◌≤◌, ◌≡◌, refl, sym, ap, ◌⊎◌, true, false, Option, none, some, ◌∷◌, ltb, ◌==◌, ◌!=◌,
  any, keep_if, ok, >>=-eq-ok, ok_injective, Bool-cases, inl, inr, ltb→ge,
}
use mini_lakehouse.Common.Decimal
use mini_lakehouse.Common.Decimal.{Decimal}
use mini_lakehouse.Controls.{AccountPosition}
use mini_lakehouse.Simulation.{
  Outcome, ArbitratedCycleProposal, SimulationRequest, Digests, cycle_id, CycleStatus, CycleReason,
  order_notional_limit, cash_limit, open_cycle, rejected, exit_book_unavailable,
  exit_settled_shortfall, closed,
}
use mini_lakehouse.Simulation.Cycle.{
  Position, Execution, OpenCycle, State, Funding, position_of, with_position, initial_of, symbol_of,
  open_of, result, priced, net_of, fund_buy, entry_reason, execution,
}
use mini_lakehouse.Simulation.Engine.{
  Event, note, buy, buy_at, funded, enter, sell, close, close_own, leave, handle,
}

-- Neither the positions nor the open cycles change.
pub record Kept (s t : State) : Type 0 where
  pub positions : t.positions ≡ s.positions
  pub cycles : t.open_by_symbol ≡ s.open_by_symbol

abbrev pub after_entry : ArbitratedCycleProposal → Position → Position
after_entry p position = record position {
  bought_today = position.bought_today + p.outcome.order_quantity;
}

abbrev pub after_exit : ArbitratedCycleProposal → Position → Position
after_exit p position = record position { settled = position.settled - p.outcome.order_quantity }

-- A cycle opens, of a symbol that had none.
pub record Bought (s t : State) (p : ArbitratedCycleProposal) : Type 0 where
  pub position : Position
  pub found : position_of p.candidate.symbol s.positions ≡ ok position
  pub free : any (λ o. symbol_of o == p.candidate.symbol) s.open_by_symbol ≡ false
  pub entry : Execution
  pub positions : t.positions ≡ with_position (after_entry p position) s.positions
  pub cycles : t.open_by_symbol ≡ record { proposal = p; entry = entry } ∷ s.open_by_symbol

module _ (env : Digests) (r : SimulationRequest) where
  -- The open cycle of the proposal closes, and the core stays settled.
  pub record Sold (s t : State) (p : ArbitratedCycleProposal) : Type 0 where
    pub position : Position
    pub found : position_of p.candidate.symbol s.positions ≡ ok position
    pub cycle : OpenCycle
    pub held : open_of p.candidate.symbol s.open_by_symbol ≡ some cycle
    pub lineage : (cycle_id env cycle.proposal != cycle_id env p) ≡ false
    pub account : AccountPosition
    pub known : initial_of p.candidate.symbol r.account.positions ≡ ok account
    pub enough : p.outcome.order_quantity + account.core_min_qty ≤ position.settled
    pub positions : t.positions ≡ with_position (after_exit p position) s.positions
    pub cycles :
        t.open_by_symbol ≡ keep_if (λ o. symbol_of o != p.candidate.symbol) s.open_by_symbol

  abbrev pub Moved : State → State → ArbitratedCycleProposal → Type 0
  Moved s t p = Kept s t ⊎ Bought s t p ⊎ Sold s t p

  unmoved : (s t : State) → ◌≡◌ {A = Outcome State} (ok s) (ok t) → Kept s t
  unmoved s t h =
      let e = ok_injective h in
      record {
        positions = ap (λ x. x.positions) (sym e);
        cycles = ap (λ x. x.open_by_symbol) (sym e);
      }

  note-Kept :
      (s t : State) (p : ArbitratedCycleProposal) (status : CycleStatus) (reason : CycleReason)
      (entry : Option Execution)
      → note env r s p status reason entry ≡ ok t
      → Kept s t
  unfolding note
  note-Kept s t p status reason entry h =
      let (c, built, same) = >>=-eq-ok (result env p status (some reason) entry none) _ h in
      let e = ok_injective same in
      record {
        positions = ap (λ x. x.positions) (sym e);
        cycles = ap (λ x. x.open_by_symbol) (sym e);
      }

  entry_reason-free :
      (s : State) (p : ArbitratedCycleProposal) (position : Position) (account : AccountPosition)
      → entry_reason r s p position account ≡ none
      → any (λ o. symbol_of o == p.candidate.symbol) s.open_by_symbol ≡ false
  unfolding entry_reason
  entry_reason-free s p position account h =
      elim (Bool-cases (any (λ o. symbol_of o == p.candidate.symbol) s.open_by_symbol)) [
        | inl busy ↦ let e = rw busy at h in absurd (cc)
        | inr free ↦ free
      ]

  funded-Moved :
      (s t : State) (p : ArbitratedCycleProposal) (position : Position) (entry : Execution)
      (f : Option Funding)
      → position_of p.candidate.symbol s.positions ≡ ok position
      → any (λ o. symbol_of o == p.candidate.symbol) s.open_by_symbol ≡ false
      → funded env r s p position entry f ≡ ok t
      → Moved s t p
  funded-Moved s t p position entry none found free h =
      inl (note-Kept s t p rejected cash_limit none h)
  funded-Moved s t p position entry (some f) found free h =
      let e = ok_injective h in
      inr (
        inl (record {
          position = position;
          found = found;
          free = free;
          entry = entry;
          positions = ap (λ x. x.positions) (sym e);
          cycles = ap (λ x. x.open_by_symbol) (sym e);
        }))

  buy_at-Moved :
      (s t : State) (p : ArbitratedCycleProposal) (position : Position) (entry : Execution)
      → position_of p.candidate.symbol s.positions ≡ ok position
      → any (λ o. symbol_of o == p.candidate.symbol) s.open_by_symbol ≡ false
      → buy_at env r s p position entry ≡ ok t
      → Moved s t p
  unfolding buy_at
  buy_at-Moved s t p position entry found free h =
      elim (Bool-cases (Decimal.lt r.risk.max_order_notional_vnd entry.notional)) [
        | inl dear ↦ inl (note-Kept s t p rejected order_notional_limit none (rw dear at h))
        | inr fine ↦
            let (f, drawn, h1) =
              >>=-eq-ok (fund_buy r s (Decimal.add entry.notional entry.charge))
                (funded env r s p position entry) (rw fine at h) in
            funded-Moved s t p position entry f found free h1
      ]

  buy-Moved :
      (s t : State) (p : ArbitratedCycleProposal) (position : Position) (account : AccountPosition)
      (reason : Option CycleReason)
      → entry_reason r s p position account ≡ reason
      → position_of p.candidate.symbol s.positions ≡ ok position
      → buy env r s p position reason ≡ ok t
      → Moved s t p
  buy-Moved s t p position account (some reason) e found h =
      inl (note-Kept s t p rejected reason none h)
  buy-Moved s t p position account none e found h =
      let (book, known, h1) = >>=-eq-ok (priced p.outcome.entry_vwap) _ h in
      let (entry, executed, h2) = >>=-eq-ok (execution r book true p.outcome.order_quantity) _ h1 in
      buy_at-Moved s t p position entry found (entry_reason-free s p position account e) h2

  enter-Moved : (s t : State) (p : ArbitratedCycleProposal) → enter env r s p ≡ ok t → Moved s t p
  unfolding enter
  enter-Moved s t p h =
      let (position, found, h1) = >>=-eq-ok (position_of p.candidate.symbol s.positions) _ h in
      let (account, known, h2) =
        >>=-eq-ok (initial_of p.candidate.symbol r.account.positions) _ h1 in
      buy-Moved s t p position account _ refl found h2

  sell-Sold :
      (s t : State) (p : ArbitratedCycleProposal) (position : Position) (o : OpenCycle)
      (account : AccountPosition) (book : Decimal)
      → position_of p.candidate.symbol s.positions ≡ ok position
      → open_of p.candidate.symbol s.open_by_symbol ≡ some o
      → (cycle_id env o.proposal != cycle_id env p) ≡ false
      → initial_of p.candidate.symbol r.account.positions ≡ ok account
      → p.outcome.order_quantity + account.core_min_qty ≤ position.settled
      → sell env r s p position o book ≡ ok t
      → Sold s t p
  unfolding sell
  sell-Sold s t p position o account book found held lineage known enough h =
      let (exit, executed, h1) = >>=-eq-ok (execution r book false p.outcome.order_quantity) _ h in
      let (c, made, h2) = >>=-eq-ok (result env p closed none (some o.entry) (some exit)) _ h1 in
      let (net, given, same) = >>=-eq-ok (net_of c.net_pnl_vnd) _ h2 in
      let e = ok_injective same in
      record {
        position = position;
        found = found;
        cycle = o;
        held = held;
        lineage = lineage;
        account = account;
        known = known;
        enough = enough;
        positions = ap (λ x. x.positions) (sym e);
        cycles = ap (λ x. x.open_by_symbol) (sym e);
      }

  close-Moved :
      (s t : State) (p : ArbitratedCycleProposal) (position : Position) (o : OpenCycle)
      (price : Option Decimal)
      → position_of p.candidate.symbol s.positions ≡ ok position
      → open_of p.candidate.symbol s.open_by_symbol ≡ some o
      → (cycle_id env o.proposal != cycle_id env p) ≡ false
      → close env r s p position o price ≡ ok t
      → Moved s t p
  close-Moved s t p position o none found held lineage h =
      inl (note-Kept s t p open_cycle exit_book_unavailable (some o.entry) h)
  close-Moved s t p position o (some book) found held lineage h =
      let (account, known, h1) =
        >>=-eq-ok (initial_of p.candidate.symbol r.account.positions) _ h in
      elim (Bool-cases (ltb position.settled (p.outcome.order_quantity + account.core_min_qty))) [
        | inl short ↦
            inl (note-Kept s t p open_cycle exit_settled_shortfall (some o.entry) (rw short at h1))
        | inr enough ↦ inr (
            inr (
              sell-Sold s t p position o account book found held lineage known (ltb→ge _ _ enough)
                (rw enough at h1)))
      ]

  close_own-Moved :
      (s t : State) (p : ArbitratedCycleProposal) (position : Position) (o : Option OpenCycle)
      → open_of p.candidate.symbol s.open_by_symbol ≡ o
      → position_of p.candidate.symbol s.positions ≡ ok position
      → close_own env r s p position o ≡ ok t
      → Moved s t p
  close_own-Moved s t p position none held found h = inl (unmoved s t h)
  close_own-Moved s t p position (some o) held found h =
      elim (Bool-cases (cycle_id env o.proposal != cycle_id env p)) [
        | inl other ↦ inl (unmoved s t (rw other at h))
        | inr own ↦ close-Moved s t p position o p.outcome.horizon_vwap found held own (rw own at h)
      ]

  leave-Moved : (s t : State) (p : ArbitratedCycleProposal) → leave env r s p ≡ ok t → Moved s t p
  unfolding leave
  leave-Moved s t p h =
      let (position, found, h1) = >>=-eq-ok (position_of p.candidate.symbol s.positions) _ h in
      close_own-Moved s t p position _ refl found h1

  pub handle-Moved : (s t : State) (e : Event) → handle env r s e ≡ ok t → Moved s t e.proposal
  unfolding handle
  handle-Moved s t e h = elim (Bool-cases e.is_entry) [
    | inl entry ↦ enter-Moved s t e.proposal (rw entry at h)
    | inr exit ↦ leave-Moved s t e.proposal (rw exit at h)
  ]
